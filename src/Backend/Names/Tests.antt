-- ===== src/Backend/Names/Tests.antt =====
-- A label of a container, as key, value and name.
use kubedock.Base.{◌≡◌, true, false, is_nil, Str}
use kubedock.Base.Text.{codes}
use kubedock.Backend.Names.{
  is_key_byte, is_value_byte, is_name_byte, to_kubernetes_key, to_kubernetes_value,
  to_kubernetes_name,
}
use kubedock.Backend.Names.Valid.{is_label_text, to_kubernetes-is_label_text}

abbrev label : Str
label = codes "/com.docker/compose service_"

to_kubernetes-is_label_text_example :
    (is_label_text is_key_byte (to_kubernetes_key label) ≡ true)
    × (is_label_text is_value_byte (to_kubernetes_value label) ≡ true)
    × (is_label_text is_name_byte (to_kubernetes_name label) ≡ true)
    × (is_nil (to_kubernetes_name label) ≡ false)
to_kubernetes-is_label_text_example = to_kubernetes-is_label_text label
