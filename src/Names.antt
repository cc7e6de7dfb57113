-- ===== src/Names.antt =====
-- pkg/cwlexec/handler.go: the short name of an identifier.
use Prim.Native.Char.{code}
use cwl_go.Prelude.{
  String, Bool, false, Option, none, some, ◌==◌, str_eq, if◌then◌else◌, List, [], ◌∷◌, ◌||◌,
}

-- strings.Cut at "#": what stands before it, and behind it.
unfoldable pub before_hash : String → String
before_hash String.[] = ""
before_hash (String.◌∷◌ c s) =
    let rest = before_hash s in if code c == 35 then "" else String.◌∷◌ c rest

unfoldable pub after_hash : String → String
after_hash String.[] = ""
after_hash (String.◌∷◌ c s) = let rest = after_hash s in if code c == 35 then s else rest

-- What stands behind the last "/".
unfoldable pub after_slash : String → Option String
after_slash String.[] = none
after_slash (String.◌∷◌ c s) = elim (after_slash s) [
  | some t ↦ some t
  | none ↦ if code c == 47 then some s else none
]

abbrev pub unless_slash : String → Option String → String
unless_slash name (some t) = t
unless_slash name none = name

-- `ShortName`
unfoldable pub short_name : String → String
unfolding before_hash after_hash after_slash
short_name id =
    let name = if str_eq (after_hash id) "" then before_hash id else after_hash id in
    unless_slash name (after_slash name)

-- The symbol of an enum, by its identifier or its short name.
unfoldable pub any_symbol : List String → String → Bool
unfolding short_name
any_symbol [] symbol = false
any_symbol (declared ∷ symbols) symbol =
    (str_eq declared symbol || str_eq (short_name declared) symbol) || any_symbol symbols symbol
