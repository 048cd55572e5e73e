-- ===== src/Threads/Sweep.antt =====
-- The cascade of a deletion over the replies, round by round (ON DELETE CASCADE on
-- `thread_root_id`).
use waypoint_be.Base.{
  ℕ, zero, suc, ◌≤◌, ◌≡◌, refl, inl, inr, Bool, true, List, [], ◌∷◌, arith, Bool-cases, length,
  filter, count, count-filter-le, all, all-filter, filter-all, length-filter-lt,
}
use waypoint_be.Store.{ChannelMessageRow}
use waypoint_be.Store.Threads.{sweep, is_anchored}

-- The cascade over the replies is finished after as many rounds as there are rows: every reply
-- that is left has its root.
pub sweep-anchored :
    (n : ℕ) (ms : List ChannelMessageRow)
    → length ms ≤ n
    → all (is_anchored (sweep n ms)) (sweep n ms) ≡ true
unfolding sweep all
sweep-anchored zero [] h = refl
sweep-anchored zero (m ∷ ms) h = absurd (omega arith)
sweep-anchored (suc n) ms h = elim (Bool-cases (all (is_anchored ms) ms)) [
  | inl settled ↦
      (let same : filter (is_anchored ms) ms ≡ ms = filter-all _ ms settled in
        rw same (settled_stays n ms settled))
  | inr more ↦
      sweep-anchored n (filter (is_anchored ms) ms)
        (omega (arith, length-filter-lt (is_anchored ms) ms more))
]
  where
    settled_stays :
        (k : ℕ) (rows : List ChannelMessageRow)
        → all (is_anchored rows) rows ≡ true
        → all (is_anchored (sweep k rows)) (sweep k rows) ≡ true
    settled_stays zero rows s = s
    settled_stays (suc k) rows s =
        rw (filter-all (is_anchored rows) rows s) (settled_stays k rows s)

pub count-sweep-le :
    (p : ChannelMessageRow → Bool) (n : ℕ) (ms : List ChannelMessageRow)
    → count p (sweep n ms) ≤ count p ms
unfolding sweep
count-sweep-le p zero ms = omega arith
count-sweep-le p (suc n) ms =
    omega (
      arith,
      count-sweep-le p n (filter (is_anchored ms) ms),
      count-filter-le p (is_anchored ms) ms,
    )

pub all-sweep :
    (p : ChannelMessageRow → Bool) (n : ℕ) (ms : List ChannelMessageRow)
    → all p ms ≡ true
    → all p (sweep n ms) ≡ true
unfolding sweep
all-sweep p zero ms h = h
all-sweep p (suc n) ms h = all-sweep p n _ (all-filter p (is_anchored ms) ms h)
