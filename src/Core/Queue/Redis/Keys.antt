-- ===== src/Core/Queue/Redis/Keys.antt =====
-- The names of the Redis lists of a queue.
use Prim.Native.String.{String, ◌++◌, count}
use mathlib.Core.Path.{ap}
use mathlib.Core.Logic.{◌≢◌}
use native.Mathlib.Omega.{arith}
use Prim.Native.Nat.{◌<◌}
use text.Mathlib.TextLemmas.{length-append}

-- `f"{queue}:processing"`
unfoldable pub processing_key : String → String
processing_key queue = queue ++ ":processing"

-- `f"{message.queue}{self._dlq_suffix}"`
unfoldable pub dlq_key : String → String → String
dlq_key dlq_suffix queue = queue ++ dlq_suffix

pub ne-processing_key : (queue : String) → queue ≢ processing_key queue
unfolding processing_key
ne-processing_key queue e = omega (arith, ap count e, length-append queue ":processing")

-- A name shorter than both suffixes is neither kind of key.
pub short-ne-processing_key : (k j : String) → count j < 11 → processing_key k ≢ j
unfolding processing_key
short-ne-processing_key k j h e = omega (arith, ap count e, length-append k ":processing")

pub short-ne-dlq_key : (suffix k j : String) → count j < count suffix → dlq_key suffix k ≢ j
unfolding dlq_key
short-ne-dlq_key suffix k j h e = omega (arith, ap count e, length-append k suffix)
