-- ===== src/Reader/Resolver.antt =====
-- internal/reader/reader.resolvers.go and the filters of internal/reader/model/conversions.go: the query
-- for vouchers with a filter. The other resolvers are in Reader/Schema. The lists `in`, `nin`, `and` and
-- `or` of a filter, which no repository reads, are left out.
use cartesi_rollups_hl_graph.Base.{
  Bool, true, false, Option, none, some, List, [], ◌∷◌, ◌++◌, Text, codes, ℤ, Exec, ◌>>=◌, pure,
}
use cartesi_rollups_hl_graph.External.{External}
use cartesi_rollups_hl_graph.Data.{ConvenienceFilter}
use cartesi_rollups_hl_graph.Store.{Db}
use cartesi_rollups_hl_graph.Repository.Voucher as Vouchers
use cartesi_rollups_hl_graph.Reader.Connection.{Connection}
use cartesi_rollups_hl_graph.Reader.Conversions.{Voucher, convert_convenient_voucher_v1}
use cartesi_rollups_hl_graph.Reader.Adapter.{no_comparison, connection_of}

pub record AddressFilter : Type 0 where
  pub eq : Option Text
  pub ne : Option Text

pub record BooleanFilter : Type 0 where
  pub eq : Option Bool
  pub ne : Option Bool

pub record ConvenientFilter : Type 0 where
  pub destination : Option AddressFilter
  pub executed : Option BooleanFilter

-- The text of a truth value, and the empty text without one.
format_bool : Option Bool → Text
format_bool none = []
format_bool (some true) = codes "true"
format_bool (some false) = codes "false"

of_destination : Option AddressFilter → List ConvenienceFilter
of_destination none = []
of_destination (some f) = record (no_comparison "Destination") { eq = f.eq; ne = f.ne } ∷ []

of_executed : Option BooleanFilter → List ConvenienceFilter
unfolding format_bool
of_executed none = []
of_executed (some f) =
    record (no_comparison "Executed") { eq = some (format_bool f.eq); ne = some (format_bool f.ne) }
    ∷ []

unfoldable pub convert_to_convenience_filter : List ConvenientFilter → List ConvenienceFilter
unfolding of_destination of_executed
convert_to_convenience_filter [] = []
convert_to_convenience_filter (f ∷ fs) =
    of_destination f.destination ++ (of_executed f.executed ++ convert_to_convenience_filter fs)

-- `Vouchers` of the query.
unfoldable pub vouchers :
    ⦃x : External⦄
    → Option ℤ
    → Option ℤ
    → Option Text
    → Option Text
    → List ConvenientFilter
    → Exec Db (Connection Voucher)
vouchers first last after before filter = do
  found ← Vouchers.find_all_vouchers first last after before (convert_to_convenience_filter filter)
  pure (connection_of convert_convenient_voucher_v1 found)
