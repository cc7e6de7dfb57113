-- ===== src/Run/Sourced.antt =====
-- A step whose dependencies have produced can read all of its sources.
use cwl_go.Prelude.{
  suc, String, ◌≡◌, refl, ap, ◌⊎◌, inl, inr, true, Option, some, List, [], ◌∷◌, arith, str_eq,
  if-elim, length, All, Among, ok,
}
use cwl_go.Value.{Value, at_key}
use cwl_go.Run.Types.{SourceRef, Runner, Loop}
use cwl_go.Run.Loop.{ready, source_value}
use cwl_go.Run.Sinks.{Lookup, read_sources}
use cwl_go.Run.Order.{ready-each}

-- The source is an input of the run, or an output of a step that is depended on.
pub record IsSourced (r : Runner) (deps : List String) (source : String) : Type 0 where
  pub ref : SourceRef
  pub known : r.sources source ≡ some ref
  pub behind : (str_eq ref.step "" ≡ true) ⊎ Among ref.step deps

-- A value for each source.
pub record AreRead (look : Lookup) (sources : List String) : Type 0 where
  pub values : List Value
  pub success : read_sources look sources ≡ ok values
  pub each : length values ≡ length sources

HasValue : Option Value → Type 0
HasValue o = (v : Value) × (o ≡ some v)

source_value-HasValue :
    (r : Runner) (l : Loop) (deps : List String) (source : String)
    → ready l deps ≡ true
    → IsSourced r deps source
    → HasValue (source_value r l source)
unfolding source_value HasValue
source_value-HasValue r l deps source h s =
    let input = some (at_key l.inputs s.ref.port) in
    let output = some (at_key (l.steps s.ref.step).outputs s.ref.port) in
    rw (source_value, s.known)
      (if-elim HasValue (str_eq s.ref.step "") input _ (λ _. (at_key l.inputs s.ref.port, refl))
        (λ other. elim s.behind [
          | inl same ↦ absurd (ground arith)
          | inr among ↦
              let made = ready-each r l deps h s.ref.step among in
              rw made ((at_key (l.steps s.ref.step).outputs s.ref.port, refl))
        ]))

read_sources-cons :
    (look : Lookup) (source : String) (sources : List String)
    → HasValue (look source)
    → AreRead look sources
    → AreRead look (source ∷ sources)
unfolding read_sources HasValue
read_sources-cons look source sources (v, e) rest = record {
  values = v ∷ rest.values;
  success = rw (read_sources, e, rest.success) refl;
  each = ap suc rest.each;
}

-- Where each source of a list is an input of the run or an output of a step among some
-- dependencies, and these dependencies have all succeeded or were skipped, reading the sources
-- succeeds with one value for each.
pub read_sources-ready :
    (r : Runner) (l : Loop) (deps sources : List String)
    → ready l deps ≡ true
    → All (IsSourced r deps) sources
    → AreRead (source_value r l) sources
unfolding read_sources
read_sources-ready r l deps [] h all = record { values = []; success = refl; each = refl }
read_sources-ready r l deps (source ∷ sources) h all =
    read_sources-cons (source_value r l) source sources
      (source_value-HasValue r l deps source h all.0) (read_sources-ready r l deps sources h all.1)
