-- ===== src/Examples/Gate.antt =====
-- Runs of the GateServer's URLs.
use xiguchat.Prelude.{◌≡◌, refl, ◌++◌, some, [], ◌∷◌, arith}
use xiguchat.Prelude.Text.{codes}
use xiguchat.Gate.Url.{url_encode, url_decode}
use xiguchat.Gate.Url.RoundTrip.{url_decode-url_encode}
use xiguchat.Gate.Query.{Params, pre_parse_get_param}
use xiguchat.Gate.Query.Parse.{query_of, set_all, pre_parse_get_param-query_of}

url_decode-url_encode_example : url_decode (url_encode (codes "a +%")) ≡ some (codes "a +%")
url_decode-url_encode_example =
    url_decode-url_encode (codes "a +%")
      (omega arith, (omega arith, (omega arith, (omega arith, tt))))

abbrev two_params : Params
two_params = (codes "a", codes "&") ∷ (codes "b", codes "=") ∷ []

pre_parse_get_param-query_of_example :
    pre_parse_get_param (codes "/t" ++ b'?' ∷ query_of two_params)
    ≡ some (codes "/t", set_all [] two_params)
pre_parse_get_param-query_of_example =
    pre_parse_get_param-query_of (codes "/t") two_params (refl, (refl, tt))
      (((omega arith, tt), (omega arith, tt)), (((omega arith, tt), (omega arith, tt)), tt))
