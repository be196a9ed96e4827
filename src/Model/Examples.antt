-- ===== src/Model/Examples.antt =====
-- A run of the content kind names.
use panora.Prelude.{◌≡◌}
use panora.Model.{kind_str, parse_kind, file_list, parse_kind-kind_str}

test_kind : parse_kind (kind_str file_list) ≡ file_list
test_kind = parse_kind-kind_str file_list
