-- ===== src/Store/Table.antt =====
-- SQL on a table that is a list of rows: INSERT under a primary key, UPDATE … WHERE, ORDER BY, LIMIT
-- and OFFSET.
pub mod Laws
pub mod Order
use cartesi_rollups_hl_graph.Base.{
  ℕ, zero, suc, ◌+◌, ◌≤◌, ◌<◌, ◌≡◌, ◌≢◌, refl, sym, ap, ◌∙◌, Bool, true, false, ◌&&◌, ◌||◌, Option,
  none, some, List, [], ◌∷◌, ◌++◌, ltb, ◌==◌, Bool-cases, inl, inr, if◌then◌else◌, Result, ok, err,
  primary_key, arith, length, find, select, map,
}

abbrev pub Key : Type 0
Key = ℕ × ℕ

abbrev pub key_eq : Key → Key → Bool
key_eq (a, b) (c, d) = a == c && b == d

-- (input_index, output_index) in lexicographic order.
abbrev pub key_lt : Key → Key → Bool
key_lt (a, b) (c, d) = ltb a c || (a == c && ltb b d)

module _ {R : Type 0} where
  unfoldable pub lookup : (R → Key) → Key → List R → Option R
  lookup key k [] = none
  lookup key k (r ∷ rs) = if key_eq (key r) k then some r else lookup key k rs

  taken : Option R → R → List R → Result (List R)
  taken none r rs = ok (rs ++ r ∷ [])
  taken (some _) r rs = err primary_key

  -- INSERT into a table with `PRIMARY KEY (input_index, output_index)`.
  unfoldable pub insert : (R → Key) → R → List R → Result (List R)
  unfolding taken
  insert key r rs = taken (lookup key (key r) rs) r rs

  -- UPDATE … SET f WHERE p.
  unfoldable pub update : (R → Bool) → (R → R) → List R → List R
  update p f [] = []
  update p f (r ∷ rs) = (if p r then f r else r) ∷ update p f rs

  -- ORDER BY; rows that the order does not tell apart stay as they stand.
  place : (R → R → Bool) → R → List R → List R
  place before r [] = r ∷ []
  place before r (s ∷ ss) =
      let rest = place before r ss in if before s r then s ∷ rest else r ∷ s ∷ ss

  unfoldable pub order_by : (R → R → Bool) → List R → List R
  unfolding place
  order_by before [] = []
  order_by before (r ∷ rs) = place before r (order_by before rs)
