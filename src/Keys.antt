-- ===== src/Keys.antt =====
-- utils/parse.go, `MakeKey`, and its copy `makeKey` in sync/desire.go: the keys of the store.
pub mod Laws
use baetyl.Base.{String, ◌<>◌, ◌||◌, ◌==◌, string_eq, if◌then◌else◌}

unfoldable pub make_key : String → String → String → String
make_key kind name ver = if name == "" || ver == "" then "" else kind <> "-" <> name <> "-" <> ver
