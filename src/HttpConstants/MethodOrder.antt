-- ===== src/HttpConstants/MethodOrder.antt =====
-- Methods as keys of a std::map: by their underlying values.
use http_cpp.Base.{◌≡◌, arith}
use http_cpp.Base.Order.{Order, order_by}
use http_cpp.HttpConstants.{Method, method_code}

pub method_code-injective : (a b : Method) → method_code a ≡ method_code b → a ≡ b
method_code-injective a b e = ground arith

instance abbrev pub method_order : Order Method
method_order = order_by method_code method_code-injective
