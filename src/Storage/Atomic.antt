-- ===== src/Storage/Atomic.antt =====
-- The operations of several statements are all or nothing.
use Prim.Native.String.{String}
