-- ===== src/Server/Filter/Semantics.antt =====
-- What a request means for the objects that it is matched with.
use kubedock.Base.{
  ◌≡◌, refl, Bool, true, false, not, ok, err, ◌&&◌, List, [], ◌∷◌, ◌++◌, none, some, is_nil, all_of,
  if◌then◌else◌, arith, Str, str_eq_instance, str_eq_iff, Option-cases, inl, inr,
}
use kubedock.Base.GoMap
use kubedock.Base.GoMap.{GoMap}
use kubedock.Server.Filter.{
  Request, KeyVal, Filter, Matcher, Json, unmarshal, to_keyval, append_keyval, append_each, ensure,
  build, create, passes, match_each, matches,
}

-- Equality of flags.
abbrev pub same_flag : Bool → Bool → Bool
same_flag true q = q
same_flag false q = not q

module _ {E : Type 0} (m : Matcher E) where
  match_each-append :
      (typ : Str) (fs : List KeyVal) (f : KeyVal)
      → match_each m typ (fs ++ f ∷ []) ≡ (match_each m typ fs && passes m typ f)
  unfolding match_each
  match_each-append typ [] f = ground arith
  match_each-append typ (g ∷ fs) f = ground (arith, match_each-append typ fs f)

  -- One more filter is one more condition.
  matches-append_keyval :
      (typ : Str) (kv : KeyVal) (fs : Filter)
      → matches m (append_keyval typ kv fs) ≡ (matches m fs && passes m typ kv)
  unfolding append_keyval GoMap.insert GoMap.get_or GoMap.lookup matches match_each
  matches-append_keyval typ kv [] = ground arith
  matches-append_keyval typ kv ((t, fs) ∷ rest) =
      ground (arith, matches-append_keyval typ kv rest, match_each-append t fs kv, str_eq_iff t typ)

  matches-insert_nil :
      (typ : Str) (fs : Filter)
      → GoMap.has typ fs ≡ false
      → matches m (GoMap.insert typ [] fs) ≡ matches m fs
  unfolding GoMap.insert GoMap.has GoMap.lookup matches match_each
  matches-insert_nil typ [] h = refl
  matches-insert_nil typ ((t, kvs) ∷ fs) h = ground (arith, matches-insert_nil typ fs)

  matches-ensure : (typ : Str) (fs : Filter) → matches m (ensure typ fs) ≡ matches m fs
  unfolding ensure
  matches-ensure typ fs = ground (arith, matches-insert_nil typ fs)

  -- The object agrees with an entry of a type: its answer is the entry's flag, or an error.
  abbrev pub agrees : Str → KeyVal → Bool
  agrees typ kv = elim (m typ kv.k kv.v) [ err e ↦ true | ok b ↦ same_flag b kv.p ]

  passes-agrees : (typ : Str) (kv : KeyVal) → passes m typ kv ≡ agrees typ kv
  unfolding passes
  passes-agrees typ kv = ground arith

  -- The conditions of a request on one type.
  abbrev pub wants : Str → GoMap Str Bool → Bool
  wants typ filtrs = all_of (λ e. agrees typ (to_keyval e.0 e.1)) filtrs

  matches-append_each :
      (typ : Str) (filtrs : GoMap Str Bool) (fs : Filter)
      → matches m (append_each typ filtrs fs) ≡ (matches m fs && wants typ filtrs)
  unfolding append_each all_of
  matches-append_each typ [] fs = ground arith
  matches-append_each typ ((f, p) ∷ filtrs) fs = ground (
    arith,
    matches-append_each typ filtrs (append_keyval typ (to_keyval f p) fs),
    matches-append_keyval typ (to_keyval f p) fs,
    passes-agrees typ (to_keyval f p),
  )

  matches-build :
      (rq : Request) (fs : Filter)
      → matches m (build rq fs) ≡ (matches m fs && all_of (λ e. wants e.0 e.1) rq)
  unfolding build all_of
  matches-build [] fs = ground arith
  matches-build ((typ, filtrs) ∷ rq) fs = ground (
    arith,
    matches-build rq (append_each typ filtrs (ensure typ fs)),
    matches-append_each typ filtrs (ensure typ fs),
    matches-ensure typ fs,
  )

  -- An object matches the filter of a request exactly if it agrees with every entry of every type
  -- of it, whatever order the loops take; an entry on which the object gives an error counts as
  -- agreed. A request that cannot be read matches everything.
  pub matches-create :
      (json : Json) (f : Str)
      → matches m (create json f).0 ≡ (
          if is_nil f
          then true
          else (elim (unmarshal json f) [ none ↦ true | some rq ↦ all_of (λ e. wants e.0 e.1) rq ]))
  unfolding create matches
  matches-create json [] = refl
  matches-create json (c ∷ f) = elim (Option-cases (unmarshal json (c ∷ f))) [
    | inl bad ↦ ground arith
    | inr (rq, good) ↦ ground (arith, matches-build rq [])
  ]
