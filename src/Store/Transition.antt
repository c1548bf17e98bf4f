-- ===== src/Store/Transition.antt =====
-- internal/storage/store/sqlite/transition.go
pub mod History
use novita_box.Common.{String, Bool, ◌&&◌, List, str_eq, leb}
use novita_box.Store.Table.{select}
use novita_box.Store.Order.{order_by}
use novita_box.Store.Records.{TransitionRecord, Db}

abbrev pub is_about : String → String → TransitionRecord → Bool
is_about resource_type resource_id t =
    str_eq t.resource_type resource_type && str_eq t.resource_id resource_id

-- id ASC
abbrev pub oldest_first : TransitionRecord → TransitionRecord → Bool
oldest_first a b = leb a.id b.id

unfoldable pub list_transitions : String → String → Db → List TransitionRecord
list_transitions resource_type resource_id db =
    order_by oldest_first (select (is_about resource_type resource_id) db.transitions)
