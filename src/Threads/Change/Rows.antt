-- ===== src/Threads/Change/Rows.antt =====
-- The deletion of channel messages row by row: which rows go, and which stay.
use waypoint_be.Base.{
  ℕ, zero, suc, ◌≡◌, refl, sym, ◌∙◌, ◌≢◌, inl, inr, Bool, true, false, not, ◌&&◌, Option, none,
  some, List, map, arith, ◌==◌, ==→≡, Bool-cases, length, filter, any, any-filter, any_ext,
  any_never, any-false_mono, all-any_not, any-map, ok, ok-injective,
}
use waypoint_be.Store.{Uuid, ChannelMessageRow}
use waypoint_be.Store.Threads.{is_reply, is_anchored, sweep, discount, delete_messages}
use waypoint_be.Threads.{IsCounted}
use waypoint_be.Threads.Change.{kept, alive, delete_messages_lem}

and_absorb : (a b : Bool) → (b ≡ true → a ≡ true) → (a && b) ≡ b
and_absorb true b h = refl
and_absorb false true h = h refl
and_absorb false false h = refl

module _ (p : ChannelMessageRow → Bool) where
  gone-filter :
      (q : ChannelMessageRow → Bool) (ms : List ChannelMessageRow)
      → any p ms ≡ false
      → any p (filter q ms) ≡ false
  gone-filter q ms h =
      any-filter p q ms ∙ any-false_mono (λ m. q m && p m) p ms (λ m e. ground arith) h

  -- The cascade brings no row back.
  gone-sweep : (n : ℕ) (ms : List ChannelMessageRow) → any p ms ≡ false → any p (sweep n ms) ≡ false
  unfolding sweep
  gone-sweep zero ms h = h
  gone-sweep (suc n) ms h = gone-sweep n (filter (is_anchored ms) ms) (gone-filter _ ms h)

  stays-filter :
      (q : ChannelMessageRow → Bool) (ms : List ChannelMessageRow)
      → ((m : ChannelMessageRow) → p m ≡ true → q m ≡ true)
      → any p (filter q ms) ≡ any p ms
  stays-filter q ms k =
      any-filter p q ms ∙ any_ext (λ m. q m && p m) p ms (λ m. and_absorb (q m) (p m) (k m))

  -- The cascade takes replies only.
  stays-sweep :
      ((rows : List ChannelMessageRow) (m : ChannelMessageRow)
        → p m ≡ true
        → is_anchored rows m ≡ true)
      → (n : ℕ) (ms : List ChannelMessageRow) → any p (sweep n ms) ≡ any p ms
  unfolding sweep
  stays-sweep k zero ms = refl
  stays-sweep k (suc n) ms =
      stays-sweep k n (filter (is_anchored ms) ms) ∙ stays-filter (is_anchored ms) ms (k ms)

-- A row that starts a thread.
unfoldable pub is_root : ChannelMessageRow → Bool
is_root m = elim m.thread_root_id [ none ↦ true | some _ ↦ false ]

root-anchored :
    (rows : List ChannelMessageRow) (m : ChannelMessageRow)
    → is_root m ≡ true
    → is_anchored rows m ≡ true
unfolding is_root
root-anchored rows m h = go m.thread_root_id h
  where
    go :
        (o : Option Uuid)
        → elim o [ none ↦ true | some _ ↦ false ] ≡ true
        → elim o [ none ↦ true | some t ↦ any (λ r. r.id == t) rows ] ≡ true
    go none k = refl
    go (some t) k = ground arith

reply-unanchored :
    (id : Uuid) (rows : List ChannelMessageRow) (m : ChannelMessageRow)
    → any (λ r. r.id == id) rows ≡ false
    → is_anchored rows m ≡ true
    → is_reply id m ≡ false
reply-unanchored id rows m absent h = go m.thread_root_id h
  where
    go :
        (o : Option Uuid)
        → elim o [ none ↦ true | some t ↦ any (λ r. r.id == t) rows ] ≡ true
        → elim o [ none ↦ false | some t ↦ t == id ] ≡ false
    go none k = refl
    go (some t) k = elim (Bool-cases (t == id)) [
      | inl e ↦
          let same : t ≡ id = ==→≡ t id e in
          let clash : any (λ r. r.id == id) rows ≡ true = rw⁻¹ same k in ground arith
      | inr e ↦ e
    ]

-- What the deletion of the row with an id leaves: no such row and no reply to it, and every other
-- row that starts a thread.
pub record Pruned (id other : Uuid) (ms left : List ChannelMessageRow) : Type 0 where
  pub gone : any (λ m. m.id == id) left ≡ false
  pub replies_gone : any (is_reply id) left ≡ false
  pub others_stay :
      any (λ m. m.id == other && is_root m) left ≡ any (λ m. m.id == other && is_root m) ms

module _ (id other : Uuid) (ms : List ChannelMessageRow) where
  abbrev rest : List ChannelMessageRow
  rest = kept (λ m. m.id == id) ms

  rest-gone : any (λ m. m.id == id) rest ≡ false
  unfolding kept alive
  rest-gone =
      gone-sweep (λ m. m.id == id) (length ms) _
        (any-filter (λ m. m.id == id) (λ m. not (m.id == id)) ms
          ∙ any_never (λ m. not (m.id == id) && m.id == id) ms (λ m. ground arith))

  rest-stays :
      other ≢ id
      → any (λ m. m.id == other && is_root m) rest ≡ any (λ m. m.id == other && is_root m) ms
  unfolding kept alive
  rest-stays n =
      stays-sweep (λ m. m.id == other && is_root m)
        (λ rows m h. root-anchored rows m (ground arith)) (length ms) _
      ∙ stays-filter (λ m. m.id == other && is_root m) (λ m. not (m.id == id)) ms
          (λ m h. ground arith)

  pub delete_messages-Pruned :
      (left : List ChannelMessageRow)
      → other ≢ id
      → IsCounted ms
      → IsCounted left
      → delete_messages (λ m. m.id == id) ms ≡ ok left
      → Pruned id other ms left
  unfolding is_root
  delete_messages-Pruned left n c counted h =
      let same : map (discount ms rest) rest ≡ left =
        ok-injective _ _ (sym (delete_messages_lem (λ m. m.id == id) ms c.counted) ∙ h) in
      let absent : any (λ m. m.id == id) left ≡ false =
        rw⁻¹ same (any-map (discount ms rest) (λ m. m.id == id) rest ∙ rest-gone) in
      record {
        gone = absent;
        replies_gone =
            all-any_not (is_anchored left) (is_reply id) left
              (λ m. reply-unanchored id left m absent) counted.anchored;
        others_stay =
            rw⁻¹ same
              (any-map (discount ms rest) (λ m. m.id == other && is_root m) rest ∙ rest-stays n);
      }
