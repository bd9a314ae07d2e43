-- ===== src/Levels/Examples.antt =====
-- Levels from texts.
use logs_interceptor_python.Base.{◌≡◌, refl, false, true, some}
use logs_interceptor_python.Errors.{ok}
use logs_interceptor_python.Levels.{from_string, is_valid, is_greater_than_or_equal}

from_padded : from_string " WARN " ≡ ok (record { value = "warn" })
unfolding from_string
from_padded = refl

not_a_level : is_valid "warning" ≡ false
unfolding is_valid
not_a_level = refl

compared :
    is_greater_than_or_equal (record { value = "error" }) (record { value = "warn" }) ≡ some true
unfolding is_greater_than_or_equal
compared = refl
