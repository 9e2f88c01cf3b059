-- ===== src/Repository/Query/Paging.antt =====
-- What `Count` and `FindAll` return when they return.
use mathlib.Core.List.{append-nil, append_assoc}
use cartesi_rollups_hl_graph.Base.{
  ℕ, ◌+◌, ◌≡◌, refl, sym, ◌∙◌, Bool, Option, some, List, [], ◌∷◌, ◌++◌, Text, map, length, take,
  drop, select, if◌then◌else◌, ℤ, pos, pos_part, Result, ok, Exec, lift, >>=-eq-ok, ◌>>=◌, pure,
  arith, ap, length-append,
}
use cartesi_rollups_hl_graph.External.{External}
use cartesi_rollups_hl_graph.Data.{ConvenienceFilter}
use cartesi_rollups_hl_graph.Store.{Db, Tables, query, tick}
use cartesi_rollups_hl_graph.Store.Reads.{query-tick, query-eq-ok}
use cartesi_rollups_hl_graph.Pagination.{compute_page}
use cartesi_rollups_hl_graph.Pagination.Bounds.{compute_page-IsWindow}
use cartesi_rollups_hl_graph.Repository.Query.{
  Column, Arg, int, Value, Where, Comparison, empty_where, transform, argument, all_hold, count,
  find_all, Page, count_where, select_page,
}
use cartesi_rollups_hl_graph.Repository.Query.Meaning.{meets, transform-meets, argument-length}

pub select_cong :
    {A : Type 0} (p q : A → Bool) (xs : List A) → ((a : A) → p a ≡ q a) → select p xs ≡ select q xs
select_cong p q [] e = refl
select_cong p q (a ∷ rest) e =
    rw (e a) (ap (λ l. if q a then a ∷ l else l) (select_cong p q rest e))

module _ ⦃x : External⦄ {R : Type 0} (table : Tables → List R) (value : R → Column → Value)
    (comparison : ConvenienceFilter → Result Comparison) where
  -- The rows that meet the filters.
  abbrev pub matching : List ConvenienceFilter → Tables → List R
  matching fs t = select (meets value comparison fs) (table t)

  select-matching :
      (fs : List ConvenienceFilter) (w : Where) (more : List Arg) (t : Tables)
      → transform comparison empty_where fs ≡ ok w
      → select (all_hold value (w.args ++ more) w.clauses) (table t) ≡ matching fs t
  select-matching fs w more t h =
      select_cong _ _ (table t) ((transform-meets value comparison fs w h).0 more)

  pub select-matching_all :
      (fs : List ConvenienceFilter) (w : Where) (t : Tables)
      → transform comparison empty_where fs ≡ ok w
      → select (all_hold value w.args w.clauses) (table t) ≡ matching fs t
  select-matching_all fs w t h =
      ap (λ (args : List Arg). select (all_hold value args w.clauses) (table t))
        (sym (append-nil w.args))
      ∙ select-matching fs w [] t h

  matching_count :
      (w : Where) (t : Tables) {n : ℕ}
      → count_where table value comparison w t ≡ ok n
      → n ≡ length (select (all_hold value w.args w.clauses) (table t))
  unfolding count_where
  matching_count w t h = ground arith

  -- A count that is returned is the number of rows that meet the filters, and nothing is changed.
  pub count-matching :
      (fs : List ConvenienceFilter) (db : Db) {n : ℕ}
      → (count table value comparison fs db).0 ≡ ok n
      → (n ≡ length (matching fs db.committed)) × ((count table value comparison fs db).1 ≡ tick db)
  unfolding count
  count-matching fs db h =
      let (w, built, counted, same) =
        >>=-eq-ok (lift (transform comparison empty_where fs)) _ db h in
      let e = query-eq-ok (count_where table value comparison w) db counted in
      (
        matching_count w db.committed e
            ∙ ap (λ l. length l) (select-matching_all fs w db.committed built),
        ap (λ p. p.1) same ∙ query-tick _ db,
      )

limit_argument :
    ⦃x : External⦄ (args : List Arg) (n : ℕ) (a b : Arg)
    → n ≡ length args + 1
    → (argument (args ++ a ∷ b ∷ []) n ≡ some a) × (argument (args ++ a ∷ b ∷ []) (n + 1) ≡ some b)
limit_argument args n a b e =
    let f : n + 1 ≡ length (args ++ a ∷ []) + 1 = omega (arith, e, length-append args (a ∷ [])) in
    (
      rw e (argument-length args (b ∷ []) a),
      rw f (rw (← append_assoc args (a ∷ []) (b ∷ [])) (argument-length (args ++ a ∷ []) [] b)),
    )

module _ ⦃x : External⦄ {R : Type 0} (table : Tables → List R) (value : R → Column → Value)
    (comparison : ConvenienceFilter → Result Comparison) (sorted : List R → List R) {T : Type 0}
    (convert : R → T) where
  pub select_page-matching :
      (fs : List ConvenienceFilter) (w : Where) (t : Tables) (o l : ℕ)
      → transform comparison empty_where fs ≡ ok w
      → select_page table value comparison sorted convert w (pos o, pos l) t
        ≡ ok (take l (drop o (sorted (matching table value comparison fs t))))
  unfolding select_page
  select_page-matching fs w t o l h =
      let (first, second) =
        limit_argument w.args w.count (int (pos l)) (int (pos o))
          ((transform-meets value comparison fs w h).1) in
      rw (
        first,
        second,
        select-matching table value comparison fs w (int (pos l) ∷ int (pos o) ∷ []) t h,
      )

  -- The rest of `FindAll` behind the count.
  rows_of : ℕ → Where → ℤ × ℤ → Exec Db (Page T)
  rows_of total w window = do
    rows ← query (select_page table value comparison sorted convert w window)
    pure (record { rows = map convert rows; total = total; offset = window.0 })

  page_at : ℕ → ℕ → ℕ → List ConvenienceFilter → Tables → Page T
  page_at total o l fs t = record {
    rows = map convert (take l (drop o (sorted (matching table value comparison fs t))));
    total = total;
    offset = pos o;
  }

  rows_of-matching :
      (fs : List ConvenienceFilter) (w : Where) (total o l : ℕ) (db : Db) {page : Page T}
      → transform comparison empty_where fs ≡ ok w
      → (rows_of total w (pos o, pos l) db).0 ≡ ok page
      → page ≡ page_at total o l fs db.committed
  unfolding rows_of page_at
  rows_of-matching fs w total o l db built h =
      let (rows, read, made, same) =
        >>=-eq-ok (query (select_page table value comparison sorted convert w (pos o, pos l))) _ db
          h in
      let e = query-eq-ok _ db read in
      cc (e, made, select_page-matching fs w db.committed o l built)

  rows_of-committed :
      (w : Where) (total : ℕ) (window : ℤ × ℤ) (db : Db)
      → (rows_of total w window db).1.committed ≡ db.committed
  unfolding rows_of query
  rows_of-committed w total window db = ground arith

  closing :
      (first last : Option ℤ) (after before : Option Text) (fs : List ConvenienceFilter) (w : Where)
      (total o l : ℕ) (window : ℤ × ℤ) (db db' : Db) {page : Page T}
      → transform comparison empty_where fs ≡ ok w
      → total ≡ length (matching table value comparison fs db.committed)
      → compute_page first last after before total ≡ ok window
      → window ≡ (pos o, pos l)
      → db' ≡ tick db
      → (rows_of total w window db').0 ≡ ok page
      → let rows = matching table value comparison fs db.committed in
        (compute_page first last after before (length rows) ≡ ok (pos o, pos l))
        × (page ≡ page_at (length rows) o l fs db.committed)
        × ((rows_of total w window db').1.committed ≡ db.committed)
  closing first last after before fs w total o l window db db' {page} built counted placed at later
        h =
      (
        rw (← counted, placed, at),
        rows_of-matching fs w total o l db' built (rw at at h)
            ∙ (rw later (ap (λ n. page_at n o l fs db.committed) counted)),
        rows_of-committed w total window db' ∙ ap (λ (d : Db). d.committed) later,
      )

  -- A page that is returned is the window of `ComputePage` on the sorted rows that meet the filters,
  -- with their number as the total; no row is changed.
  pub find_all-matching :
      (first last : Option ℤ) (after before : Option Text) (fs : List ConvenienceFilter) (db : Db)
      {page : Page T}
      → (find_all table value comparison sorted convert first last after before fs db).0 ≡ ok page
      → let rows = matching table value comparison fs db.committed in
        (o : ℕ) × (l : ℕ) × (compute_page first last after before (length rows) ≡ ok (pos o, pos l))
        × (page ≡ record {
          rows = map convert (take l (drop o (sorted rows)));
          total = length rows;
          offset = pos o;
        })
        × ((find_all table value comparison sorted convert first last after before fs
              db).1.committed
            ≡ db.committed)
  unfolding find_all rows_of page_at
  find_all-matching first last after before fs db h =
      let (total, counted, h1, s1) = >>=-eq-ok (count table value comparison fs) _ db h in
      let (n, unchanged) = count-matching table value comparison fs db counted in
      let (w, built, h2, s2) = >>=-eq-ok (lift (transform comparison empty_where fs)) _ _ h1 in
      let (window, placed, h3, s3) =
        >>=-eq-ok (lift (compute_page first last after before total)) _ _ h2 in
      let v = compute_page-IsWindow first last after before total placed in
      let (e1, e2, e3) =
        closing first last after before fs w total (pos_part window.0) (pos_part window.1) window db
          _ built n placed (λ i. (v.offset_nonneg i, v.limit_nonneg i)) unchanged h3 in
      (pos_part window.0, pos_part window.1, e1, e2, ap (λ p. p.1.committed) (s1 ∙ s2 ∙ s3) ∙ e3)
