-- ===== src/Mqtt/Connect/Tests.antt =====
-- The theorem on CONNECT bodies at a concrete login.
use c_mx.Common.{ℕ, true, false, none, some, List, [], ◌∷◌, ◌++◌, arith, ◌≡◌, refl}
use c_mx.Mqtt.Packets.Laws.{filled}
use c_mx.Mqtt.Connect.{Login, format_connect, eval_connect, add_string, add_counted}
use c_mx.Mqtt.Connect.Size.{IsLogin, connect_bytes, format_connect-eval_connect}

-- Client "c" with a will "w" on topic "t" and a password, but no user name.
abbrev login : Login
login = record {
  clean_session = true;
  keep_alive = 60;
  client_id = 99 ∷ [];
  will_topic = some (116 ∷ []);
  will_msg = some (119 ∷ []);
  will_msg_len = 1;
  will_retain = false;
  will_qos = 1;
  user_name = none;
  password = some (1 ∷ 2 ∷ []);
  password_len = 2;
}

login-IsLogin : IsLogin login
login-IsLogin = record {
  qos_small = omega arith;
  keep_alive_fits = omega arith;
  client_fits = omega arith;
  topic_fits = omega arith;
  name_fits = omega arith;
  msg_fits = omega arith;
  password_fits = omega arith;
  msg_counted = refl;
  password_counted = refl;
}

abbrev room : List ℕ
room =
    0 ∷ 0 ∷ 0 ∷ 0 ∷ 0 ∷ 0 ∷ 0 ∷ 0 ∷ 0 ∷ 0 ∷ 0 ∷ 0 ∷ 0 ∷ 0 ∷ 0 ∷ 0 ∷ 0 ∷ 0 ∷ 0 ∷ 0 ∷ 0 ∷ 0 ∷ 0 ∷ 9
    ∷ []

format_connect-eval_connect_example :
    format_connect login 1 ((5 ∷ []) ++ room)
    ≡ some (23, filled (5 ∷ []) room (connect_bytes login))
unfolding eval_connect add_string add_counted
format_connect-eval_connect_example =
    format_connect-eval_connect login (5 ∷ []) room 1 login-IsLogin refl (omega arith)
