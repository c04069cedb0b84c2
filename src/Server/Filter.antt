-- ===== src/Server/Filter.antt =====
-- internal/server/filter/filter.go: the filters that list and event requests carry.
pub mod Semantics
pub mod Containers
pub mod Tests
use kubedock.Base.{
  Bool, true, false, ◌&&◌, not, List, [], ◌∷◌, ◌++◌, Option, none, some, is_nil, if◌then◌else◌,
  Result, ok, err, Str, str_eq_instance,
}
use kubedock.Base.GoMap
use kubedock.Base.GoMap.{GoMap}
use kubedock.Base.Text.{split}

abbrev pub Request : Type 0
Request = GoMap Str (GoMap Str Bool)

pub record KeyVal : Type 0 where
  pub k : Str
  pub v : Str
  pub p : Bool

abbrev pub Filter : Type 0
Filter = GoMap Str (List KeyVal)

-- What `Match` of an object answers to a type, a key and a value; `E` are its errors.
abbrev pub Matcher : Type 0 → Type 0
Matcher E = Str → Str → Str → Result E Bool

-- (*rq)[typ][f] = true for each f
unfoldable pub set_true : List Str → GoMap Str Bool → GoMap Str Bool
set_true [] m = m
set_true (f ∷ fs) m = set_true fs (GoMap.insert f true m)

unfoldable pub add_legacy : GoMap Str (List Str) → Request → Request
unfolding set_true
add_legacy [] rq = rq
add_legacy ((typ, filtrs) ∷ rql) rq = add_legacy rql (GoMap.insert typ (set_true filtrs []) rq)

-- How encoding/json reads the argument: as a Request it fills what it can, and says whether it
-- met no error; as the legacy format it gives a value or an error.
pub record Json : Type 0 where
  pub decode_request : Str → Request × Bool
  pub decode_legacy : Str → Option (GoMap Str (List Str))

-- unmarshal; `none` is an error
unfoldable pub unmarshal : Json → Str → Option Request
unfolding add_legacy
unmarshal json dat =
    let (rq, fine) = json.decode_request dat in
    if fine
    then some rq
    else (elim (json.decode_legacy dat) [ none ↦ none | some rql ↦ some (add_legacy rql rq) ])

-- strings.Split(f, "=") with its two parts, or its first part alone
unfoldable pub to_keyval : Str → Bool → KeyVal
to_keyval f p = elim (split b'=' f) [
  | [] ↦ record { k = []; v = []; p = p }
  | k ∷ v ∷ [] ↦ record { k = k; v = v; p = p }
  | k ∷ rest ↦ record { k = k; v = []; p = p }
]

-- in.filters[typ] = append(in.filters[typ], kv)
unfoldable pub append_keyval : Str → KeyVal → Filter → Filter
append_keyval typ kv filters = GoMap.insert typ (GoMap.get_or typ [] filters ++ kv ∷ []) filters

unfoldable pub append_each : Str → GoMap Str Bool → Filter → Filter
unfolding append_keyval to_keyval
append_each typ [] filters = filters
append_each typ ((f, p) ∷ filtrs) filters =
    append_each typ filtrs (append_keyval typ (to_keyval f p) filters)

-- The first statement of the loop over the types: an empty list where there is none.
unfoldable pub ensure : Str → Filter → Filter
ensure typ filters = if GoMap.has typ filters then filters else GoMap.insert typ [] filters

unfoldable pub build : Request → Filter → Filter
unfolding append_each ensure
build [] filters = filters
build ((typ, filtrs) ∷ rq) filters = build rq (append_each typ filtrs (ensure typ filters))

-- New: the filter, and whether there was no error. The filter of a failed call has no entries.
unfoldable pub create : Json → Str → Filter × Bool
unfolding build unmarshal
create json f =
    if is_nil f
    then ([], true)
    else (elim (unmarshal json f) [ none ↦ ([], false) | some rq ↦ (build rq [], true) ])

module _ {E : Type 0} (m : Matcher E) where
  -- One filter: an erroneous one is passed over.
  unfoldable pub passes : Str → KeyVal → Bool
  passes typ f = elim (m typ f.k f.v) [
    | err e ↦ true
    | ok is_match ↦ if is_match then f.p else not f.p
  ]

  -- The inner loop; `false` is the return out of it.
  unfoldable pub match_each : Str → List KeyVal → Bool
  unfolding passes
  match_each typ [] = true
  match_each typ (f ∷ filtrs) =
      let rest = match_each typ filtrs in if passes typ f then rest else false

  -- Match
  unfoldable pub matches : Filter → Bool
  unfolding match_each
  matches [] = true
  matches ((typ, filtrs) ∷ filters) =
      let rest = matches filters in if match_each typ filtrs then rest else false
