-- ===== src/Server/Filter/Containers.antt =====
-- Label filters on containers.
use kubedock.Base.{
  ◌≡◌, ◌∙◌, ap, str_eq, Bool, true, List, [], ◌∷◌, ◌++◌, some, Result, arith, Str, str_eq_instance,
}
use kubedock.Base.GoMap
use kubedock.Base.Text.{codes, split}
use kubedock.Base.Text.Split.{lacks, split-append, split_parts}
use kubedock.Model.Error.{Error}
use kubedock.Model.Container.{Container}
use kubedock.Model.Container.Match
use kubedock.Server.Filter.{KeyVal, to_keyval, passes}

value_lost :
    (k rest : Str) (p : Bool) (q r : Str) (rs : List Str)
    → lacks b'=' k ≡ true
    → split b'=' rest ≡ q ∷ r ∷ rs
    → ((to_keyval (k ++ b'=' ∷ rest) p).k ≡ k)
      × ((to_keyval (k ++ b'=' ∷ rest) p).v ≡ [])
      × ((to_keyval (k ++ b'=' ∷ rest) p).p ≡ p)
unfolding to_keyval
value_lost k rest p q r rs h e =
    let s = split-append b'=' k rest h in (ground arith, ground arith, ground arith)

label_any :
    (regexp_match : Str → Str → Result Error Bool) (co : Container) (k w : Str) (kv : KeyVal)
    → kv.k ≡ k
    → kv.v ≡ []
    → kv.p ≡ true
    → GoMap.lookup k co.labels ≡ some w
    → passes (Match.matches regexp_match co) (codes "label") kv ≡ true
unfolding passes Match.matches codes str_eq
label_any regexp_match co k w kv ek ev ep label = ground arith

-- A label filter whose value holds an equals sign, such as key=a=b, is met by every container that
-- has the label, whatever its value is.
pub label_value_lost :
    (regexp_match : Str → Str → Result Error Bool) (co : Container) (k a b w : Str)
    → lacks b'=' k ≡ true
    → lacks b'=' a ≡ true
    → GoMap.lookup k co.labels ≡ some w
    → passes
        (Match.matches regexp_match co)
        (codes "label")
        (to_keyval (k ++ b'=' ∷ (a ++ b'=' ∷ b)) true)
      ≡ true
label_value_lost regexp_match co k a b w hk ha label =
    let (q, qs, e) = split_parts b'=' b in
    let two = split-append b'=' a b ha ∙ ap (λ ps. a ∷ ps) e in
    let (ek, ev, ep) = value_lost k (a ++ b'=' ∷ b) true a q qs hk two in
    label_any regexp_match co k w (to_keyval (k ++ b'=' ∷ (a ++ b'=' ∷ b)) true) ek ev ep label
