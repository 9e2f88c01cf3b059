-- ===== src/Reader/Walk.antt =====
-- A client that follows the end cursors of the pages.
use cartesi_rollups_hl_graph.Base.{
  ℕ, zero, suc, ◌+◌, ◌-◌, ◌≤◌, ◌<◌, ◌≡◌, sym, ◌∙◌, ap, Option, none, some, List, [], ◌∷◌, ◌++◌, ltb,
  Text, length, take, drop, min, ℤ, pos, pos_part, Result, ok, bind, if◌then◌else◌, max_int, arith,
  length-take, take-append-drop, drop-drop, take_all, Bool-cases, inl, inr, length-drop, List-cases,
}
use cartesi_rollups_hl_graph.Pagination.{compute_page, encode_cursor, compute_forward_page}
use cartesi_rollups_hl_graph.Pagination.Bounds.{compute_page_first}
use cartesi_rollups_hl_graph.Reader.Connection.{
  Connection, nodes, new_connection, nodes-new_connection, new_connection-page_info,
}

-- The cursor to ask for the rows from `k` on.
abbrev before_row : ℕ → Option Text
before_row zero = none
before_row (suc k) = some (encode_cursor k)

module _ {T : Type 0} where
  -- The connection of a window on the rows.
  abbrev pub connect : List T → ℤ × ℤ → Connection T
  connect rows (o, l) =
      new_connection (pos_part o) (length rows) (take (pos_part l) (drop (pos_part o) rows))

  -- A page as the queries serve it.
  abbrev pub serve : List T → ℕ → Option Text → Result (Connection T)
  serve rows first after =
      bind (compute_page (some (pos first)) none after none (length rows))
        (λ w. ok (connect rows w))

  abbrev next_page : (Option Text → Result (List T)) → Connection T → Result (List T)
  next_page rest c =
      if c.page_info.has_next_page
      then bind (rest c.page_info.end_cursor) (λ more. ok (nodes c ++ more))
      else ok (nodes c)

  -- The client asks for pages of `first` rows until a page has no next one.
  abbrev pub walk : List T → ℕ → ℕ → Option Text → Result (List T)
  walk rows first zero after = ok []
  walk rows first (suc fuel) after =
      let rest = λ (cursor : Option Text). walk rows first fuel cursor in
      bind (serve rows first after) (λ c. next_page rest c)

  serve_from :
      (rows : List T) (n k : ℕ)
      → k < length rows
      → length rows ≤ max_int
      → serve rows n (before_row k)
        ≡ ok (new_connection k (length rows) (take (min n (length rows - k)) (drop k rows)))
  serve_from rows n zero h b =
      rw ((compute_page_first n 0 (length rows) h b).0)
        (let e : length rows ≡ length rows - 0 = omega arith in rw (← e))
  serve_from rows n (suc k) h b =
      rw ((compute_page_first n k (length rows) (omega arith) b).1)
        (let e : k + 1 ≡ suc k = omega arith in rw e)

  next_page-new_connection :
      (rest : Option Text → Result (List T)) (k total : ℕ) (m : T) (ms : List T)
      → next_page rest (new_connection k total (m ∷ ms)) ≡ (
          if ltb (k + length ms + 1) total
          then bind (rest (some (encode_cursor (k + length ms)))) (λ more. ok (m ∷ ms ++ more))
          else ok (m ∷ ms))
  next_page-new_connection rest k total m ms =
      rw (new_connection-page_info k total m ms) (rw (nodes-new_connection k total (m ∷ ms)))

  -- A page that is not empty, whose rest is what its end cursor leads to.
  next_page_rest :
      (rest : Option Text → Result (List T)) (rows : List T) (k l : ℕ) (m : T) (ms : List T)
      → take l (drop k rows) ≡ m ∷ ms
      → length ms + 1 ≡ l
      → k + l ≤ length rows
      → (k + l < length rows
          → rest (some (encode_cursor (k + length ms))) ≡ ok (drop (suc (k + length ms)) rows))
      → next_page rest (new_connection k (length rows) (m ∷ ms)) ≡ ok (drop k rows)
  next_page_rest rest rows k l m ms e el h ih =
      rw (next_page-new_connection rest k (length rows) m ms)
        (elim (Bool-cases (ltb (k + length ms + 1) (length rows))) [
          | inl t ↦ rw t (
              rw (ih (ground arith)) (
                let q : suc (k + length ms) ≡ k + l = omega arith in
                let joined : (m ∷ ms) ++ drop (suc (k + length ms)) rows ≡ drop k rows =
                  cc (q, e, drop-drop k l rows, take-append-drop l (drop k rows)) in
                ap ok joined))
          | inr f ↦
              rw f (ap ok (sym e ∙ take_all l (drop k rows) (ground (arith, length-drop k rows))))
        ])

  walk_from :
      (rows : List T) (n fuel k : ℕ)
      → k < length rows
      → length rows ≤ max_int
      → length rows - k ≤ fuel
      → walk rows (suc n) fuel (before_row k) ≡ ok (drop k rows)
  walk_from rows n zero k h b enough = absurd (omega arith)
  walk_from rows n (suc fuel) k h b enough =
      let l : ℕ = min (suc n) (length rows - k) in
      let rest : Option Text → Result (List T) = λ cursor. walk rows (suc n) fuel cursor in
      let ih : (j : ℕ)
          → k ≤ j
          → suc j < length rows
          → rest (some (encode_cursor j)) ≡ ok (drop (suc j) rows) =
        λ j after more. walk_from rows n fuel (suc j) more b (omega arith) in
      let size : length (take l (drop k rows)) ≡ l =
        omega (arith, length-take l (drop k rows), length-drop k rows) in
      rw (serve_from rows (suc n) k h b) (elim (List-cases (take l (drop k rows))) [
        | inl e ↦ absurd (omega (arith, size, ap length e))
        | inr (m, ms, e) ↦ rw e (
            next_page_rest rest rows k l m ms e (omega (arith, size, ap length e)) (omega arith)
              (λ more. ih (k + length ms) (omega arith) (omega (arith, size, ap length e))))
      ])

  -- Of rows whose number is in the range of `int`, the pages of `suc n` rows that a client reads from the
  -- first page on, each time behind the end cursor of the last page and until a page has no next one, hold
  -- every row exactly once and in order; as many requests as there are rows, or one if there is none, are
  -- enough.
  pub walk-rows :
      (rows : List T) (n fuel : ℕ)
      → length rows ≤ max_int
      → length rows ≤ suc fuel
      → walk rows (suc n) (suc fuel) none ≡ ok rows
  unfolding compute_page compute_forward_page new_connection
  walk-rows [] n fuel b enough = ground arith
  walk-rows (r ∷ rs) n fuel b enough =
      walk_from (r ∷ rs) n (suc fuel) 0 (omega arith) b (omega arith)
