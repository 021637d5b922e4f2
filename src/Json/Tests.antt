-- ===== src/Json/Tests.antt =====
-- Printed values, as `JSON.stringify` prints them.
use loopstorm_guard.Common.{◌≡◌, refl}
use loopstorm_guard.Json.{
  undefined, number, str, arr, obj, nil, cons, end, field, deterministic_stringify,
}

stringify_test :
    deterministic_stringify (
      obj (
        field "b"
          (arr (cons (number "1.5") (cons undefined nil)))
          (field "a" (str "x\n\"\u{1}") (field "c" undefined end))))
    ≡ "{\"a\":\"x\\n\\\"\\u0001\",\"b\":[1.5,null]}"
unfolding deterministic_stringify
stringify_test = refl
