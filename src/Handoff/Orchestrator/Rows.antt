-- ===== src/Handoff/Orchestrator/Rows.antt =====
-- The conditional update of a handoff's row, on the list of rows.
use vox_forge.Common.{
  ℕ, ◌≡◌, refl, ap, Bool, true, false, none, some, List, [], ◌∷◌, map, ◌==◌, if◌then◌else◌, find,
  any, arith,
}
use vox_forge.Domain.Handoff.{HandoffStatus, HandoffRecord}
use vox_forge.Store.World.{World}
use vox_forge.Store.Exec.{ok}
use vox_forge.Store.Handoffs
use vox_forge.Store.Handoffs.{has_id, matches}

-- No two rows have one id: the table's primary key.
abbrev pub Unique : List HandoffRecord → Type 0
Unique [] = Unit
Unique (r ∷ rows) = (any (λ q. q.id == r.id) rows ≡ false) × Unique rows

module _ {A : Type 0} where
  find-map :
      (p : A → Bool) (f : A → A) (rows : List A) (r : A)
      → ((x : A) → p (f x) ≡ p x)
      → find p rows ≡ some r
      → find p (map f rows) ≡ some (f r)
  find-map p f [] r keep h = ground arith
  find-map p f (x ∷ rows) r keep h = ground (arith, keep x, find-map p f rows r keep)

  pub find-holds : (p : A → Bool) (rows : List A) (r : A) → find p rows ≡ some r → p r ≡ true
  find-holds p [] r h = ground arith
  find-holds p (x ∷ rows) r h = ground (arith, find-holds p rows r)

  any-find :
      (p hit : A → Bool) (rows : List A) (r : A)
      → find p rows ≡ some r
      → hit r ≡ true
      → any hit rows ≡ true
  any-find p hit [] r h e = ground arith
  any-find p hit (x ∷ rows) r h e = ground (arith, any-find p hit rows r)

  map-no_hit :
      (hit : A → Bool) (f : A → A) (rows : List A)
      → any hit rows ≡ false
      → map (λ x. if hit x then f x else x) rows ≡ rows
  map-no_hit hit f [] h = refl
  map-no_hit hit f (x ∷ rows) h = ground (arith, map-no_hit hit f rows)

module _ (handoff_id org_id : ℕ) (allowed : HandoffStatus → Bool) where
  abbrev hit : HandoffRecord → Bool
  hit = matches handoff_id org_id (some allowed)

  no_other_hit :
      (rows : List HandoffRecord)
      → any (λ q. q.id == handoff_id) rows ≡ false
      → any hit rows ≡ false
  no_other_hit [] h = refl
  no_other_hit (x ∷ rows) h = ground (arith, no_other_hit rows)

  no_hit :
      (rows : List HandoffRecord) (r : HandoffRecord)
      → Unique rows
      → find (has_id handoff_id org_id) rows ≡ some r
      → allowed r.status ≡ false
      → any hit rows ≡ false
  no_hit [] r u h e = refl
  no_hit (x ∷ rows) r u h e = ground (arith, no_hit rows r u.1, no_other_hit rows)

  module _ (status : HandoffStatus) (fields : HandoffRecord → HandoffRecord)
      (keeps_id : (r : HandoffRecord) → (fields r).id ≡ r.id)
      (keeps_org : (r : HandoffRecord) → (fields r).org_id ≡ r.org_id) (w : World)
      (r : HandoffRecord) (found : find (has_id handoff_id org_id) w.handoffs ≡ some r) where
    -- The row with the new columns, and the world that holds it.
    abbrev pub written : HandoffRecord → HandoffRecord
    written q = record (fields q) { status = status; updated_at = w.clock }

    abbrev pub updated : World
    updated = record w { handoffs = map (λ q. if hit q then written q else q) w.handoffs }

    pub update-hit :
        allowed r.status ≡ true
        → (Handoffs.update_status handoff_id org_id status (some allowed) fields w
            ≡ (ok (some (written r)), updated))
          × (find (has_id handoff_id org_id) updated.handoffs ≡ some (written r))
    unfolding Handoffs.update_status Handoffs.get_handoff
    update-hit e = (ground (arith, some_hit, still_found), still_found)
      where
        r_hit : hit r ≡ true
        r_hit = ground (arith, find-holds (has_id handoff_id org_id) w.handoffs r found, e)

        some_hit : any hit w.handoffs ≡ true
        some_hit = any-find (has_id handoff_id org_id) hit w.handoffs r found r_hit

        keeps :
            (q : HandoffRecord)
            → has_id handoff_id org_id (if hit q then written q else q) ≡ has_id handoff_id org_id q
        keeps q = ground (arith, keeps_id q, keeps_org q)

        still_found : find (has_id handoff_id org_id) updated.handoffs ≡ some (written r)
        still_found = ground (
          arith,
          find-map (has_id handoff_id org_id) (λ q. if hit q then written q else q) w.handoffs r
              keeps found,
          r_hit,
        )

    pub update-miss :
        Unique w.handoffs
        → allowed r.status ≡ false
        → Handoffs.update_status handoff_id org_id status (some allowed) fields w ≡ (ok none, w)
    unfolding Handoffs.update_status
    update-miss u e =
        let none_hit = no_hit w.handoffs r u found e in
        let same : updated ≡ w =
          ap (λ rows. record w { handoffs = rows }) (map-no_hit hit written w.handoffs none_hit) in
        ground (arith, none_hit, same)

-- An update that leaves ids alone keeps them distinct.
any-map_id :
    (k : ℕ) (f : HandoffRecord → HandoffRecord) (rows : List HandoffRecord)
    → ((r : HandoffRecord) → (f r).id ≡ r.id)
    → any (λ q. q.id == k) (map f rows) ≡ any (λ q. q.id == k) rows
any-map_id k f [] keep = refl
any-map_id k f (x ∷ rows) keep = ground (arith, keep x, any-map_id k f rows keep)

pub map-Unique :
    (f : HandoffRecord → HandoffRecord) (rows : List HandoffRecord)
    → ((r : HandoffRecord) → (f r).id ≡ r.id)
    → Unique rows
    → Unique (map f rows)
map-Unique f [] keep u = tt
map-Unique f (x ∷ rows) keep u =
    (ground (arith, keep x, any-map_id x.id f rows keep, u.0), map-Unique f rows keep u.1)

pub find-map-if :
    (p hit : HandoffRecord → Bool) (f : HandoffRecord → HandoffRecord) (rows : List HandoffRecord)
    (r : HandoffRecord)
    → ((q : HandoffRecord) → p (f q) ≡ p q)
    → find p rows ≡ some r
    → find p (map (λ q. if hit q then f q else q) rows) ≡ some (if hit r then f r else r)
find-map-if p hit f rows r keep h =
    find-map p (λ q. if hit q then f q else q) rows r (λ q. ground (arith, keep q)) h
