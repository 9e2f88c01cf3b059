-- ===== src/Reader/Connection.antt =====
-- internal/reader/model/pagination.go: a page of nodes as a GraphQL connection.
use cartesi_rollups_hl_graph.Base.{
  ℕ, suc, ◌+◌, ◌≡◌, refl, Bool, false, Option, none, some, List, [], ◌∷◌, ltb, Text, length, map,
  ap, arith,
}
use cartesi_rollups_hl_graph.Pagination.{encode_cursor}

pub record Edge (T : Type 0) : Type 0 where
  pub node : T
  pub offset : ℕ

pub record PageInfo : Type 0 where
  pub start_cursor : Option Text
  pub end_cursor : Option Text
  pub has_next_page : Bool
  pub has_previous_page : Bool

pub record Connection (T : Type 0) : Type 0 where
  pub total_count : ℕ
  pub edges : List (Edge T)
  pub page_info : PageInfo

-- `Edge.Cursor`
unfoldable pub cursor : {T : Type 0} → Edge T → Text
cursor e = encode_cursor e.offset

unfoldable pub edges_from : {T : Type 0} → ℕ → List T → List (Edge T)
edges_from offset [] = []
edges_from offset (n ∷ ns) = record { node = n; offset = offset } ∷ edges_from (suc offset) ns

-- The last element of `e ∷ es`.
unfoldable pub last_edge : {T : Type 0} → Edge T → List (Edge T) → Edge T
last_edge e [] = e
last_edge e (f ∷ es) = last_edge f es

-- `last.offset < total - 1` of integers.
unfoldable pub page_info : {T : Type 0} → ℕ → List (Edge T) → PageInfo
page_info total [] = record {
  start_cursor = none;
  end_cursor = none;
  has_next_page = false;
  has_previous_page = false;
}
page_info total (e ∷ es) = record {
  start_cursor = some (encode_cursor e.offset);
  end_cursor = some (encode_cursor (last_edge e es).offset);
  has_next_page = ltb ((last_edge e es).offset + 1) total;
  has_previous_page = ltb 0 e.offset;
}

unfoldable pub new_connection : {T : Type 0} → ℕ → ℕ → List T → Connection T
unfolding edges_from page_info
new_connection offset total nodes =
    let edges = edges_from offset nodes in
    record { total_count = total; edges = edges; page_info = page_info total edges }

abbrev pub nodes : {T : Type 0} → Connection T → List T
nodes c = map (λ e. e.node) c.edges

pub nodes-new_connection :
    {T : Type 0} (offset total : ℕ) (ns : List T) → nodes (new_connection offset total ns) ≡ ns
unfolding new_connection
nodes-new_connection offset total [] = refl
nodes-new_connection offset total (n ∷ ns) =
    ap (λ l. n ∷ l) (nodes-new_connection (suc offset) total ns)

last_edge-offset :
    {T : Type 0} (offset : ℕ) (n : T) (ns : List T)
    → (last_edge (record { node = n; offset = offset }) (edges_from (suc offset) ns)).offset
      ≡ offset + length ns
unfolding last_edge edges_from
last_edge-offset offset n [] = omega arith
last_edge-offset offset n (m ∷ ns) = omega (arith, last_edge-offset (suc offset) m ns)

-- The page information of a page that is not empty: its cursors are those of its first and last
-- rows, there is a next page exactly if rows follow the last, and a previous one exactly if rows
-- stand before the first.
pub new_connection-page_info :
    {T : Type 0} (offset total : ℕ) (n : T) (ns : List T)
    → (new_connection offset total (n ∷ ns)).page_info ≡ record {
      start_cursor = some (encode_cursor offset);
      end_cursor = some (encode_cursor (offset + length ns));
      has_next_page = ltb (offset + length ns + 1) total;
      has_previous_page = ltb 0 offset;
    }
unfolding new_connection
new_connection-page_info offset total n ns = rw (last_edge-offset offset n ns)
