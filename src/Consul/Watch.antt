-- ===== src/Consul/Watch.antt =====
-- What a watcher has last received, and what the resolver's cache holds of it.
use goplatform.Prelude.{
  ℕ, ◌≡◌, refl, sym, ap, ◌∙◌, List, [], ◌∷◌, ◌==◌, ==_iff, Bool-cases, inl, inr,
}
use goplatform.Errors.{Error}
use goplatform.Discovery.{Instance}
use goplatform.Consul.{ServiceEntry, Reply, entries_at, failed, to_instances, watch_loop, watch}

-- The last list sent, and the one before the loop if there is none.
abbrev pub last_sent : List Instance → List (List Instance) → List Instance
last_sent before [] = before
last_sent before (sent ∷ rest) = last_sent sent rest

-- The state of Consul that a query meets: an index, or an error.
pub data Query : Type 0 where
  at_index : ℕ → Query
  broken : Error → Query

module _ (entries_of : ℕ → List ServiceEntry) where
  -- Blocking queries are answered with the entries that belong to the index.
  abbrev pub reply_to : Query → Reply
  reply_to (at_index i) = entries_at (entries_of i) i
  reply_to (broken e) = failed e

  abbrev pub replies_to : List Query → List Reply
  replies_to [] = []
  replies_to (q ∷ qs) = reply_to q ∷ replies_to qs

abbrev pub last_index : ℕ → List Query → ℕ
last_index i [] = i
last_index i (at_index j ∷ qs) = last_index j qs
last_index i (broken e ∷ qs) = last_index i qs

watch_loop-current :
    (entries_of : ℕ → List ServiceEntry) (qs : List Query) (i : ℕ)
    → last_sent (to_instances (entries_of i)) (watch_loop i (replies_to entries_of qs))
      ≡ to_instances (entries_of (last_index i qs))
unfolding watch_loop
watch_loop-current entries_of [] i = refl
watch_loop-current entries_of (broken e ∷ qs) i = watch_loop-current entries_of qs i
watch_loop-current entries_of (at_index j ∷ qs) i = elim (Bool-cases (j == i)) [
  | inl same ↦
      let e : j ≡ i = (==_iff j i).0 same in
      rw same (watch_loop-current entries_of qs i ∙ rw e refl)
  | inr changed ↦ rw changed (watch_loop-current entries_of qs j)
]

-- Where the entries of a service depend only on the index under which Consul replies, and there are
-- none under index 0, the last list that Watch has sent is always that of the last reply,
-- whatever queries failed in between: no change is missed, though replies under an unchanged index are not
-- sent.
pub watch-current :
    (entries_of : ℕ → List ServiceEntry) (qs : List Query)
    → entries_of 0 ≡ []
    → last_sent [] (watch (replies_to entries_of qs)) ≡ to_instances (entries_of (last_index 0 qs))
unfolding watch to_instances
watch-current entries_of qs h =
    ap (λ es. last_sent (to_instances es) (watch (replies_to entries_of qs))) (sym h)
    ∙ watch_loop-current entries_of qs 0
