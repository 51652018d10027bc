-- ===== src/Build.antt =====
-- What a build of the program decides where the source leaves it open.
use http_cpp.Base.{Bool}

pub record Build : Type 0 where
  -- NDEBUG is defined: assertions are left out.
  pub ndebug : Bool
  -- The compiler placed the array of `ENTITY_HEADER` right behind that of `REQUEST_HEADER`, so that
  -- the end of the one and the begin of the other are the same address.
  pub entity_follows_request : Bool
