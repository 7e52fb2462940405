-- ===== src/Ingest/Auth/Examples.antt =====
-- A request with a query, signed by a key that shows what it signs.
use kalshi_alpha.Prelude.{◌≡◌, some, ◌∷◌, ◌++◌, arith}
use kalshi_alpha.Prelude.Text.{codes}
use kalshi_alpha.Common.Parse.{decimal}
use kalshi_alpha.Ingest.Auth.{Credentials, headers_of, sign_rest}
use kalshi_alpha.Ingest.Auth.Query.{sign_rest_lem}

abbrev open_key : Credentials
open_key = record { key_id = codes "key"; signing_key = λ message. some message }

sign_rest_lem_example :
    (sign_rest open_key (some 70) (codes "GET") (codes "/a" ++ (b'?' ∷ codes "x=1"))
      ≡ sign_rest open_key (some 70) (codes "GET") (codes "/a"))
    × (sign_rest open_key (some 70) (codes "GET") (codes "/a")
        ≡ headers_of open_key (decimal 70 70) (some (decimal 70 70 ++ (codes "GET" ++ codes "/a"))))
sign_rest_lem_example =
    sign_rest_lem open_key 70 (codes "GET") (codes "/a") (codes "x=1")
      ((λ e. absurd (omega (arith, e))), ((λ e. absurd (omega (arith, e))), tt))
