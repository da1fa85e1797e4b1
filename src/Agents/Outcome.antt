-- ===== src/Agents/Outcome.antt =====
-- That a run of the agents ends, and what it answers.
use vox_forge.Common.{
  ℕ, zero, suc, ◌+◌, ◌*◌, ◌≤◌, ◌<◌, max, ◌≡◌, refl, sym, true, false, not, Option, none, some, [],
  ◌||◌, leb, if◌then◌else◌, arith, Bool-cases, ◌⊎◌, inl, inr,
}
use mathlib.Core.Path.{subst}
use vox_forge.Agents.Graph.{
  Agents, OrchestratorState, Node, Run, raised, stopped, finished, go_on, planner, planned, safety,
  judged, executor, executed, critic, reviewed, coordinator, safety_reply, critic_reply, and_then,
  as_dict, parse_json, route_after_safety, route_after_critic, run_graph, run_agents, refusal,
}

-- What holds of the final state of a run that began at iteration `i`.
pub record Done (agents : Agents) (i : ℕ) (s' : OrchestratorState) : Type 0 where
  pub answer : s'.final_response ≡ (if s'.safety_passed then s'.draft_response else refusal)
  pub reviewed :
      (not s'.safety_passed || (s'.critic_approved || leb agents.max_agent_iterations s'.iteration))
      ≡ true
  pub revisions : s'.iteration ≤ max (i + 1) agents.max_agent_iterations

-- A state at which the node of an agent raises.
abbrev pub IsFailing : Agents → OrchestratorState → Type 0
IsFailing agents q =
    (planner agents q ≡ none)
    ⊎ ((safety agents q ≡ none) ⊎ ((executor agents q ≡ none) ⊎ (critic agents q ≡ none)))

-- A run ends well with a state that is done; it raises only where an agent does.
abbrev pub Ended : Agents → ℕ → Run → Type 0
Ended agents i raised = (q : OrchestratorState) × IsFailing agents q
Ended agents i stopped = ⊥
Ended agents i (finished s) = Done agents i s

module _ (agents : Agents) where
  -- What a node that returns leaves of the state.
  record Moved (s : OrchestratorState) (s' : OrchestratorState) : Type 0 where
    it : s'.iteration ≡ s.iteration
    fresh : s'.final_response ≡ s.final_response
    passed : s'.safety_passed ≡ s.safety_passed

  abbrev IfSome : (OrchestratorState → Type 0) → Option OrchestratorState → Type 0
  IfSome P none = Unit
  IfSome P (some s) = P s

  and_then-IfSome :
      {A : Type 0} (P : OrchestratorState → Type 0) (o : Option A) (f : A → OrchestratorState)
      → ((a : A) → P (f a))
      → IfSome P (and_then o (λ a. some (f a)))
  and_then-IfSome P none f h = tt
  and_then-IfSome P (some a) f h = h a

  twice-IfSome :
      {A B : Type 0} (P : OrchestratorState → Type 0) (o : Option A) (g : A → Option B)
      (f : B → OrchestratorState)
      → ((b : B) → P (f b))
      → IfSome P (and_then o (λ a. and_then (g a) (λ b. some (f b))))
  twice-IfSome P none g f h = tt
  twice-IfSome P (some a) g f h = and_then-IfSome P (g a) f h

  planner-Moved : (s : OrchestratorState) → IfSome (Moved s) (planner agents s)
  unfolding planner
  planner-Moved s =
      and_then-IfSome (Moved s) _ (planned s)
        (λ plan. record { it = refl; fresh = refl; passed = refl })

  executor-Moved : (s : OrchestratorState) → IfSome (Moved s) (executor agents s)
  unfolding executor
  executor-Moved s =
      and_then-IfSome (Moved s) _ (λ done. executed s done.0 done.1)
        (λ done. record { it = refl; fresh = refl; passed = refl })

  abbrev Judged : OrchestratorState → OrchestratorState → Type 0
  Judged s s' =
      (s'.iteration ≡ s.iteration)
      × (s'.final_response ≡ (if s'.safety_passed then s.final_response else refusal))

  safety-Judged : (s : OrchestratorState) → IfSome (Judged s) (safety agents s)
  unfolding safety
  safety-Judged s =
      twice-IfSome (Judged s) (safety_reply agents s)
        (λ content. as_dict (parse_json agents content)) (judged agents s) (λ parsed. (refl, refl))

  abbrev Reviewed : OrchestratorState → OrchestratorState → Type 0
  Reviewed s s' =
      (s'.iteration ≡ (if s'.critic_approved then s.iteration else s.iteration + 1))
      × (s'.final_response ≡ s.final_response)
      × (s'.safety_passed ≡ s.safety_passed)

  critic-Reviewed : (s : OrchestratorState) → IfSome (Reviewed s) (critic agents s)
  unfolding critic
  critic-Reviewed s =
      twice-IfSome (Reviewed s) (critic_reply agents s)
        (λ content. as_dict (parse_json agents content)) (reviewed agents s)
        (λ parsed. (refl, refl, refl))

  -- The coordinator at the end of a run, by whether safety has passed.
  coordinator-Done :
      (i : ℕ) (s : OrchestratorState)
      → s.final_response ≡ (if s.safety_passed then [] else refusal)
      → (not s.safety_passed || (s.critic_approved || leb agents.max_agent_iterations s.iteration))
        ≡ true
      → s.iteration ≤ max (i + 1) agents.max_agent_iterations
      → Done agents i (coordinator s)
  unfolding coordinator
  coordinator-Done i s answer reviewed revisions = elim (Bool-cases s.safety_passed) [
    | inl passed ↦ record {
      answer = ground (arith, answer, passed);
      reviewed = ground (arith, answer, reviewed, passed);
      revisions = ground (arith, answer, revisions, passed);
    }
    | inr blocked ↦ record {
      answer = ground (arith, answer, blocked);
      reviewed = ground (arith, answer, reviewed, blocked);
      revisions = ground (arith, answer, revisions, blocked);
    }
  ]

  abbrev Ends : ℕ → Node → ℕ → OrchestratorState → Type 0
  Ends steps node i s = Ended agents i (run_graph agents steps node s)

  -- On with the state of a node, if it has not raised.
  go_on-Ended :
      (i : ℕ) (P : OrchestratorState → Type 0) (later : OrchestratorState → Run)
      (o : Option OrchestratorState)
      → (o ≡ none → (q : OrchestratorState) × IsFailing agents q)
      → IfSome P o
      → ((s : OrchestratorState) → P s → Ended agents i (later s))
      → Ended agents i (go_on later o)
  go_on-Ended i P later none fails p next = fails refl
  go_on-Ended i P later (some s) fails p next = next s p

  weaken :
      (i : ℕ) (r : Run)
      → Ended agents (i + 1) r
      → i + 1 < agents.max_agent_iterations
      → Ended agents i r
  weaken i raised fails more = fails
  weaken i stopped fails more = elim fails [ ]
  weaken i (finished s) done more = record {
    answer = done.answer;
    reviewed = done.reviewed;
    revisions = omega (arith, more, done.revisions);
  }

  to_node :
      (steps : ℕ) {node : Node} (target : Node) (i : ℕ) (s : OrchestratorState)
      → node ≡ target
      → Ends steps target i s
      → Ends steps node i s
  to_node steps target i s e t = subst (λ node. Ends steps node i s) (sym e) t

  safety-passed :
      (s : OrchestratorState) → s.safety_passed ≡ true → route_after_safety s ≡ Node.at_executor
  unfolding route_after_safety
  safety-passed s e = ground (arith, e)

  safety-blocked :
      (s : OrchestratorState) → s.safety_passed ≡ false → route_after_safety s ≡ Node.at_coordinator
  unfolding route_after_safety
  safety-blocked s e = ground (arith, e)

  -- Steps for what comes after the critic, with at most `n` more revisions.
  unfoldable steps_after : ℕ → ℕ
  steps_after zero = 1
  steps_after (suc n) = suc (suc (suc (suc (steps_after n))))

  at_coordinator :
      (n i : ℕ) (s : OrchestratorState)
      → Done agents i (coordinator s)
      → Ends (steps_after n) Node.at_coordinator i s
  unfolding run_graph steps_after
  at_coordinator zero i s done = done
  at_coordinator (suc n) i s done = done

  -- From the node after the critic.
  after_critic :
      (n i : ℕ) (s : OrchestratorState)
      → s.iteration ≡ (if s.critic_approved then i else i + 1)
      → s.final_response ≡ []
      → s.safety_passed ≡ true
      → (i + 1 < agents.max_agent_iterations
          → s.iteration ≡ i + 1
          → Ends (steps_after n) Node.at_planner (i + 1) s)
      → Ends (steps_after n) (route_after_critic agents s) i s
  unfolding route_after_critic
  after_critic n i s it fresh passed again = elim (Bool-cases s.critic_approved) [
    | inl approved ↦ to_node (steps_after n) Node.at_coordinator i s (ground (arith, approved)) (
        at_coordinator n i s (
          coordinator-Done i s (ground (arith, fresh, passed)) (ground (arith, approved, passed))
            (ground (arith, it, approved))))
    | inr rejected ↦ (elim (Bool-cases (leb agents.max_agent_iterations s.iteration)) [
      | inl last ↦
          to_node (steps_after n) Node.at_coordinator i s (ground (arith, rejected, last)) (
            at_coordinator n i s (
              coordinator-Done i s (ground (arith, fresh, passed)) (ground (arith, last, passed))
                (ground (arith, it, rejected))))
      | inr more ↦ to_node (steps_after n) Node.at_planner i s (ground (arith, rejected, more)) (
          weaken i (run_graph agents (steps_after n) Node.at_planner s)
            (again (ground (arith, it, rejected, more)) (ground (arith, it, rejected)))
            (ground (arith, it, rejected, more)))
    ])
  ]

  -- One pass from the planner, given what a revision comes to.
  pass :
      (n i : ℕ) (s : OrchestratorState)
      → s.iteration ≡ i
      → s.final_response ≡ []
      → ((q : OrchestratorState)
          → i + 1 < agents.max_agent_iterations
          → q.iteration ≡ i + 1
          → q.final_response ≡ []
          → Ends (steps_after n) Node.at_planner (i + 1) q)
      → Ends (suc (suc (suc (suc (steps_after n))))) Node.at_planner i s
  unfolding run_graph
  pass n i s it fresh again =
      go_on-Ended i (Moved s) _ (planner agents s) (λ e. (s, inl e)) (planner-Moved s)
        λ s₁ k₁.
          go_on-Ended i (Judged s₁) _ (safety agents s₁) (λ e. (s₁, inr (inl e))) (safety-Judged s₁)
            λ s₂ k₂. elim (Bool-cases s₂.safety_passed) [
              | inl passed ↦
                  to_node (suc (suc (steps_after n))) Node.at_executor i s₂
                    (safety-passed s₂ passed)
                    (go_on-Ended i (Moved s₂) _ (executor agents s₂) (λ e. (s₂, inr (inr (inl e))))
                      (executor-Moved s₂)
                      λ s₃ k₃.
                        go_on-Ended i (Reviewed s₃) _ (critic agents s₃)
                          (λ e. (s₃, inr (inr (inr e)))) (critic-Reviewed s₃)
                          λ s₄ k₄.
                            after_critic n i s₄ (ground (arith, k₁.it, k₂, k₃.it, k₄, it))
                              (ground (arith, k₁.fresh, k₂, k₃.fresh, k₄, fresh, passed))
                              (ground (arith, k₃.passed, k₄, passed))
                              (λ more it'.
                                again s₄ more it'
                                  (ground (arith, k₁.fresh, k₂, k₃.fresh, k₄, fresh, passed))))
              | inr blocked ↦
                  to_node (suc (suc (steps_after n))) Node.at_coordinator i s₂
                    (safety-blocked s₂ blocked)
                    (coordinator-Done i s₂ (ground (arith, k₂, blocked, k₁.fresh, fresh))
                      (ground (arith, blocked)) (ground (arith, k₂, k₁.it, it)))
            ]

  turn :
      (n i : ℕ) (s : OrchestratorState)
      → s.iteration ≡ i
      → s.final_response ≡ []
      → agents.max_agent_iterations ≤ n + i
      → Ends (suc (suc (suc (suc (steps_after n))))) Node.at_planner i s
  unfolding steps_after
  turn zero i s it fresh enough =
      pass zero i s it fresh (λ q more it' fresh'. ground (arith, more, enough))
  turn (suc n) i s it fresh enough =
      pass (suc n) i s it fresh
        (λ q more it' fresh'. turn n (i + 1) q it' fresh' (omega (arith, enough)))

  -- More steps change nothing for a run that has not been stopped.
  go_on-same :
      (i : ℕ) (o : Option OrchestratorState) (later more : OrchestratorState → Run)
      → ((s : OrchestratorState) → Ended agents i (later s) → Ended agents i (more s))
      → Ended agents i (go_on later o)
      → Ended agents i (go_on more o)
  go_on-same i none later more h e = e
  go_on-same i (some s) later more h e = h s e

  with_more :
      (i steps more : ℕ) (node : Node) (s : OrchestratorState)
      → steps ≤ more
      → Ends steps node i s
      → Ends more node i s
  unfolding run_graph
  with_more i zero more node s h e = elim e [ ]
  with_more i (suc steps) zero node s h e = ground (arith, h)
  with_more i (suc steps) (suc more) Node.at_planner s h e =
      go_on-same i (planner agents s) _ _
        (λ q. with_more i steps more Node.at_safety q (omega (arith, h))) e
  with_more i (suc steps) (suc more) Node.at_safety s h e =
      go_on-same i (safety agents s) _ _
        (λ q. with_more i steps more (route_after_safety q) q (omega (arith, h))) e
  with_more i (suc steps) (suc more) Node.at_executor s h e =
      go_on-same i (executor agents s) _ _
        (λ q. with_more i steps more Node.at_critic q (omega (arith, h))) e
  with_more i (suc steps) (suc more) Node.at_critic s h e =
      go_on-same i (critic agents s) _ _
        (λ q. with_more i steps more (route_after_critic agents q) q (omega (arith, h))) e
  with_more i (suc steps) (suc more) Node.at_coordinator s h e = e

  steps_after-count : (n : ℕ) → steps_after n ≡ 4 * n + 1
  unfolding steps_after
  steps_after-count zero = refl
  steps_after-count (suc n) = omega (arith, steps_after-count n)

-- A run of the agents that begins with no answer and no revision ends within the graph library's step
-- limit, if this allows `4 * max_agent_iterations + 5` steps. It raises only where a node of an agent
-- raises. Otherwise its answer is the executor's last draft, or the refusal where the safety agent has
-- blocked it; the draft has been approved by the critic, or the revisions are used up; and there are at
-- most `max 1 max_agent_iterations` revisions.
pub run_agents-Done :
    (agents : Agents) (s : OrchestratorState)
    → s.iteration ≡ 0
    → s.final_response ≡ []
    → 4 * agents.max_agent_iterations + 5 ≤ agents.recursion_limit
    → Ended agents 0 (run_agents agents s)
unfolding run_agents
run_agents-Done agents s it fresh enough =
    with_more agents 0 _ agents.recursion_limit Node.at_planner s
      (omega (arith, steps_after-count agents agents.max_agent_iterations, enough))
      (turn agents agents.max_agent_iterations 0 s it fresh (omega arith))
