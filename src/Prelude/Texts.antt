-- ===== src/Prelude/Texts.antt =====
-- Joining texts, as Python's f-strings do.
use Prim.Native.String
use Prim.Native.String.{String}

infixl 65 ◌<>◌
abbrev pub ◌<>◌ : String → String → String
a <> b = String.◌++◌ a b
