-- ===== src/FollyRcu/Quiescent.antt =====
-- A domain that keeps what `follyrcu_protected` relies on: it runs a deleter when no thread is inside.
use writeboost_rcu.Common.{
  ℕ, ◌+◌, ◌<◌, ◌≡◌, ◌≢◌, refl, ◌&&◌, Option, none, some, List, [], ◌∷◌, ◌==◌, bit, ltb, count,
  if◌then◌else◌, ℕ_discrete, arith,
}
use writeboost_rcu.FollyRcu.Retirement.{Domain}

pub record Quiescent : Type 0 where
  pub readers : List ℕ
  pub pending : List ℕ

leave : ℕ → List ℕ → List ℕ
leave t [] = []
leave t (u ∷ us) = let rest = leave t us in if t == u then rest else u ∷ rest

run_deleter : ℕ → List ℕ → List ℕ
run_deleter p [] = []
run_deleter p (q ∷ qs) = let rest = run_deleter p qs in if p == q then qs else q ∷ rest

reclaim_from : ℕ → List ℕ → List ℕ → Option Quiescent
unfolding run_deleter
reclaim_from p [] pending =
    if ltb 0 (count p pending)
    then some (record { readers = []; pending = run_deleter p pending })
    else none
reclaim_from p (t ∷ ts) pending = none

count-leave : (t u : ℕ) (ts : List ℕ) → t ≢ u → count u (leave t ts) ≡ count u ts
unfolding leave
count-leave t u [] apart = refl
count-leave t u (k ∷ ks) apart = ground (arith, count-leave t u ks apart)

count-run_deleter :
    (p q : ℕ) (ps : List ℕ)
    → 0 < count p ps
    → bit (q == p) + count q (run_deleter p ps) ≡ count q ps
unfolding run_deleter
count-run_deleter p q [] pos = absurd (omega arith)
count-run_deleter p q (k ∷ ks) pos = elim (ℕ_discrete p k) [
  | yes same ↦ ground arith
  | no apart ↦ ground (arith, count-run_deleter p q ks (ground arith))
]

reclaim_from-retired :
    (p q : ℕ) (readers pending : List ℕ) {z : Quiescent}
    → reclaim_from p readers pending ≡ some z
    → bit (q == p) + count q z.pending ≡ count q pending
unfolding reclaim_from
reclaim_from-retired p q [] pending e = ground (arith, count-run_deleter p q pending)
reclaim_from-retired p q (t ∷ ts) pending e = absurd (ground arith)

reclaim_from-empty :
    (p u : ℕ) (readers pending : List ℕ) {z : Quiescent}
    → reclaim_from p readers pending ≡ some z
    → count u readers ≡ 0
unfolding reclaim_from
reclaim_from-empty p u [] pending e = refl
reclaim_from-empty p u (t ∷ ts) pending e = absurd (ground arith)

reclaim_from-inside :
    (p u : ℕ) (readers pending : List ℕ)
    → 0 < count u readers
    → reclaim_from p readers pending ≡ none
unfolding reclaim_from
reclaim_from-inside p u [] pending pos = absurd (omega arith)
reclaim_from-inside p u (t ∷ ts) pending pos = refl

-- The domain, with the laws that it keeps.
unfoldable pub quiescent : Domain Quiescent
unfolding leave reclaim_from count-leave count-run_deleter reclaim_from-retired reclaim_from-empty
    reclaim_from-inside
quiescent = record {
  initial = record { readers = []; pending = [] };
  lock = λ t s. record s { readers = t ∷ s.readers };
  unlock = λ t s. record s { readers = leave t s.readers };
  rcu_retire = λ p s. record s { pending = p ∷ s.pending };
  reclaim = λ p s. reclaim_from p s.readers s.pending;
  inside = λ s t. ltb 0 (count t s.readers);
  retired = λ s p. count p s.pending;
  waits = λ s t p. ltb 0 (count t s.readers) && ltb 0 (count p s.pending);
  initial_retired = λ p. refl;
  lock_retired = λ t p s. refl;
  unlock_retired = λ t p s. refl;
  retire_retired = λ p q s. refl;
  reclaim_retired = λ p q s s' e. reclaim_from-retired p q s.readers s.pending e;
  lock_inside = λ t s. ground arith;
  lock_other = λ t u s h. ground arith;
  unlock_other = λ t u s apart h. ground (arith, count-leave t u s.readers apart);
  retire_inside = λ p u s h. h;
  reclaim_inside =
      λ p u s s' e h. absurd (ground (arith, reclaim_from-empty p u s.readers s.pending e));
  retire_waits = λ p u s h. ground arith;
  lock_waits = λ t u p s h. ground arith;
  unlock_waits = λ t u p s apart h. ground (arith, count-leave t u s.readers apart);
  more_waits = λ q u p s h. ground arith;
  reclaim_waits =
      λ q u p s s' e h. absurd (ground (arith, reclaim_from-empty q u s.readers s.pending e));
  waits_retired = λ u p s h. ground arith;
  waits_reclaim = λ u p s h. reclaim_from-inside p u s.readers s.pending (ground arith);
}
