-- ===== src/Mqtt/Values/Tests.antt =====
-- The theorems on configurations at concrete values.
use c_mx.Common.{none, some, [], ◌∷◌, ◌≡◌, refl}
use c_mx.Mqtt.Values.{Conf, conf_init, conf_create, conf_copy, conf_copy-conf_create}

abbrev created : Conf
created = record {
  client_id = some (97 ∷ []);
  user_name = none;
  password = some (1 ∷ 2 ∷ []);
  password_len = 2;
  keep_alive = 60;
}

conf_copy-conf_create_example :
    (conf_create (some (97 ∷ [])) 60 none (some (1 ∷ 2 ∷ [])) 2 ≡ some created)
    × (conf_copy conf_init created ≡ some created)
conf_copy-conf_create_example =
    conf_copy-conf_create (some (97 ∷ [])) none (some (1 ∷ 2 ∷ [])) 60 2 refl
