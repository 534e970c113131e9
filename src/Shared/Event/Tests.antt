-- ===== src/Shared/Event/Tests.antt =====
-- The theorems on names at concrete tables, and a few runs.
use nendi.Common.{◌≡◌, ◌≢◌, refl, some, none, codes, split_once, All, text_eq}
use nendi.Shared.Event.{TableId, qualified, from_qualified, get_text, from_str_tag, OpType}
use nendi.Shared.Event.Names.{qualified-from_qualified}
use nendi.Shared.Event.Samples.{order_row}

abbrev orders : TableId
orders = record { schema = codes "public"; table = codes "a.b" }

parse_orders : from_qualified (codes "public.a.b") ≡ some orders
unfolding from_qualified split_once
parse_orders = refl

get_text_runs : get_text order_row (codes "id") ≡ some (codes "1")
unfolding get_text text_eq
get_text_runs = refl

null_runs : get_text order_row (codes "status") ≡ none
unfolding get_text text_eq
null_runs = refl

tag_runs : from_str_tag (codes "UPDATE") ≡ some OpType.update
unfolding from_str_tag text_eq
tag_runs = refl

qualified-from_qualified_example :
    (qualified orders ≡ codes "public.a.b") × All (λ c. c ≢ b'.') (codes "public")
qualified-from_qualified_example = qualified-from_qualified (codes "public.a.b") parse_orders
