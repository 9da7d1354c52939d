-- ===== src/Patch/Apply/Clone.antt =====
-- `Apply` of msgpackpatch/apply.go with no operations.
use hydraide.Base.{◌≡◌, [], ap}
use hydraide.Base.Bytes.{Bytes}
use hydraide.Base.Outcome.{ok}
use hydraide.Patch.Msgpack.{Msgpack, Documented}
use hydraide.Patch.Parse.{serialize}
use hydraide.Patch.Parse.RoundTrip.{Fits, parse-serialize}
use hydraide.Patch.Skeleton.{Skeleton}
use hydraide.Patch.Apply.Run.{apply, apply_ops}

module _ (m : Msgpack) (d : Documented m) where
  -- With a package that works as documented: on the encoding of a tree whose counts and keys fit
  -- the format and whose leaves are single values, Apply with no operations gives the same bytes.
  pub apply_none :
      (orig : Bytes) (s : Skeleton)
      → Fits m orig s
      → apply m (serialize m orig s) [] ≡ ok (serialize m orig s)
  unfolding apply apply_ops
  apply_none orig s fits =
      let (s', parsed, same) = parse-serialize m d orig s fits in rw parsed (ap ok same)
