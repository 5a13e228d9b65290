-- ===== src/Lock/Limiter/Coarse.antt =====
-- An arithmetic for tests of src/domain/lock: a thousand parts to a token, rounded up.
use agent_collab.Common.{◌+◌, ◌*◌, ◌/◌}
use agent_collab.Lock.Semantic.{second}
use agent_collab.Lock.Limiter.{Float64}

abbrev pub coarse : Float64
coarse = record { one = 1000; accrue = λ tokens elapsed rate. tokens + elapsed * rate / second + 1 }
