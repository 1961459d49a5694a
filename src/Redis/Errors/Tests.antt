-- ===== src/Redis/Errors/Tests.antt =====
-- The theorems on Redis errors at concrete errors.
use txova_go_db.Text.{codes}
use txova_go_db.Redis.Errors.{Error, from_redis_error, get_code}
use txova_go_db.Redis.Errors.Classify.{Classified, from_redis_error-Classified}

abbrev dialled : Error
dialled = Error.other (codes "Dial TCP 10.0.0.1:6379: i/o timeout")

from_redis_error-Classified_example : Classified dialled (get_code (from_redis_error dialled))
from_redis_error-Classified_example = from_redis_error-Classified dialled
