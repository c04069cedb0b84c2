-- ===== src/Backend/Remote/ExitCode.antt =====
-- The exit code of a command.
use kubedock.Base.{◌≡◌, refl, true, false, ◌++◌, some, none, Option, Str, zero, suc}
use kubedock.Base.Int.{ℤ, pos, negsuc}
use kubedock.Base.Text.{codes, contains, trim_prefix, without_prefix, has_prefix}
use kubedock.Base.Text.Decimal.{sprint}
use kubedock.Base.Text.Decimal.Parsed.{is_int64, parse_int64-sprint}
use kubedock.Backend.Remote.{eterm, parse_exec_response}

-- the text of a CodeExitError
abbrev pub exit_error : ℤ → Str
exit_error code = eterm ++ codes " " ++ sprint code

-- the error of a command that ended: none where it ended well
abbrev pub exit_text : ℤ → Option Str
exit_text (pos zero) = none
exit_text (pos (suc n)) = some (exit_error (pos (suc n)))
exit_text (negsuc n) = some (exit_error (negsuc n))

pub parse_exec_response-exit_error :
    (code : ℤ) → is_int64 code ≡ true → parse_exec_response (some (exit_error code)) ≡ (code, false)
unfolding parse_exec_response contains trim_prefix without_prefix has_prefix codes
parse_exec_response-exit_error code small = rw (parse_int64-sprint code small) refl

pub parse_exec_response-exit_text :
    (code : ℤ) → is_int64 code ≡ true → parse_exec_response (exit_text code) ≡ (code, false)
unfolding parse_exec_response
parse_exec_response-exit_text (pos zero) small = refl
parse_exec_response-exit_text (pos (suc n)) small =
    parse_exec_response-exit_error (pos (suc n)) small
parse_exec_response-exit_text (negsuc n) small = parse_exec_response-exit_error (negsuc n) small
