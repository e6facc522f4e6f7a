-- ===== src/Session/Examples.antt =====
-- Inputs for the theorems about the session.
use stv_renew.Prelude.{◌≡◌, refl, [], ◌∷◌, List, some, none, true, str_eq, if◌then◌else◌}
use stv_renew.Session.{
  Environment, Files, Access, token_file_path, save, create_session, Op, logs_in, logs_out, run,
  load,
}
use stv_renew.Session.Restart.{IsUsable, Saved, save-Saved, restarted, restart_lem}

abbrev env : Environment
env = record {
  getenv = λ name. if str_eq name "HOME" then some "/home/ann" else none;
  pw_dir = none;
}

abbrev access : Access
access = record {
  prepares = λ _. true;
  opens = λ _. true;
  examines = λ _. true;
  reads = λ _. true;
  removes = λ _. true;
}

abbrev no_files : Files
no_files _ = none

usable : IsUsable env access "/home/ann/.config/stv_renew/tokens.txt"
unfolding token_file_path
usable = record {
  named = refl;
  prepared = refl;
  opened = refl;
  examined = refl;
  readable = refl;
  removable = refl;
}

save-Saved_example :
    Saved env access "/home/ann/.config/stv_renew/tokens.txt" "abc" "x y" no_files
      (save env access "abc" "x y" no_files)
save-Saved_example =
    save-Saved env access "/home/ann/.config/stv_renew/tokens.txt" "abc" "x y" no_files usable refl
      refl

abbrev calls : List Op
calls = logs_in "ann@example.org" "secret" ∷ logs_out ∷ logs_in "" "" ∷ logs_in "bob" "pw" ∷ []

restart_lem_example :
    (restarted env access
      (run (λ t. t) env access (create_session env access no_files) calls)).logged_in
    ≡ (run (λ t. t) env access (create_session env access no_files) calls).logged_in
restart_lem_example =
    restart_lem (λ t. t) env access "/home/ann/.config/stv_renew/tokens.txt" no_files calls usable

-- The user is signed in at the end.
last_login : (run (λ t. t) env access (create_session env access no_files) calls).logged_in ≡ true
unfolding run create_session
last_login = refl

-- A file with one line has no tokens.
one_line : load env access (λ _. some "abc") ≡ some none
unfolding load
one_line = refl
