-- ===== src/Session/Restart.antt =====
-- What the token file keeps from one start of the program to the next.
use text.Mathlib.TextLemmas.{nil-append, cons-append}
use Prim.Native.Char.{code}
use Prim.Native.String.{◌++◌ as str_append}
use stv_renew.Prelude.{
  ◌≡◌, ◌≢◌, ◌∙◌, refl, sym, ap, inl, inr, Bool, true, false, ◌||◌, ◌==◌, String, List, [], ◌∷◌,
  Option, none, some, concat, str_eq_refl, str_eq-cases, is_empty, if◌then◌else◌, arith, Bool-cases,
}
use stv_renew.Session.{
  Environment, Files, Access, token_file_path, save, load, clear, read_line, getline, put_file,
  Session, create_session, login, logout, Op, logs_in, logs_out, run,
}

abbrev pub has_newline : String → Bool
has_newline String.[] = false
has_newline (String.◌∷◌ c s) = code c == 10 || has_newline s

read_line-append :
    (v rest : String)
    → has_newline v ≡ false
    → read_line (str_append v (str_append "\n" rest)) ≡ (v, rest)
unfolding read_line
read_line-append String.[] rest h =
    rw (nil-append (str_append "\n" rest), cons-append "\n" "" rest, nil-append rest) refl
read_line-append (String.◌∷◌ c v) rest h =
    rw (cons-append c v (str_append "\n" rest)) (ground (arith, read_line-append v rest))

getline-append :
    (v rest : String)
    → has_newline v ≡ false
    → getline (str_append v (str_append "\n" rest)) ≡ some (v, rest)
unfolding getline read_line
getline-append String.[] rest h =
    rw (nil-append (str_append "\n" rest), cons-append "\n" "" rest, nil-append rest) refl
getline-append (String.◌∷◌ c v) rest h =
    ap getline (cons-append c v (str_append "\n" rest))
    ∙ ap some (
        ap read_line (sym (cons-append c v (str_append "\n" rest)))
        ∙ read_line-append (String.◌∷◌ c v) rest h)

-- The token file has a path, and the file system lets the program use it.
pub record IsUsable (env : Environment) (access : Access) (path : String) : Type 0 where
  pub named : token_file_path env ≡ some path
  pub prepared : access.prepares path ≡ true
  pub opened : access.opens path ≡ true
  pub examined : access.examines path ≡ true
  pub readable : access.reads path ≡ true
  pub removable : access.removes path ≡ true

-- What `load` answers for the tokens of a file.
abbrev pub tokens_of : (access_token refresh_token : String) → Option (String × String)
tokens_of a r = if is_empty a || is_empty r then none else some (a, r)

read_back :
    (env : Environment) (access : Access) (path a r : String) (files : Files)
    → IsUsable env access path
    → has_newline a ≡ false
    → has_newline r ≡ false
    → files path ≡ some (concat (a ∷ "\n" ∷ r ∷ "\n" ∷ []))
    → load env access files ≡ some (tokens_of a r)
unfolding load
read_back env access path a r files u ha hr there =
    rw
      (
        u.named,
        load,
        u.examined,
        there,
        u.readable,
        getline-append a (concat (r ∷ "\n" ∷ [])) ha,
        getline-append r "" hr,
      )
      refl

-- Saved tokens without a line end are read back, unless one of them is empty, when none are; no other
-- file is touched.
pub record Saved (env : Environment) (access : Access) (path a r : String) (files : Files)
    (o : Option Files) : Type 0 where
  pub after : Files
  pub saves : o ≡ some after
  pub reloads : load env access after ≡ some (tokens_of a r)
  pub others : (q : String) → q ≢ path → after q ≡ files q

-- What `save` writes of two tokens without a line end, `load` reads back, whatever was saved before:
-- both tokens, or none when one of them is empty; and no other file changes. The token file must have
-- a path and be usable.
pub save-Saved :
    (env : Environment) (access : Access) (path a r : String) (files : Files)
    → IsUsable env access path
    → has_newline a ≡ false
    → has_newline r ≡ false
    → Saved env access path a r files (save env access a r files)
unfolding save
save-Saved env access path a r files u ha hr =
    let content = concat (a ∷ "\n" ∷ r ∷ "\n" ∷ []) in
    record {
      after = put_file path (some content) files;
      saves = rw (u.named, save, u.prepared, u.opened) refl;
      reloads =
          read_back env access path a r (put_file path (some content) files) u ha hr
            (rw (str_eq_refl path) refl);
      others = λ q other. elim (str_eq-cases path q) [
        | inl (_, same) ↦ absurd (other (sym same))
        | inr (e, _) ↦ rw e refl
      ];
    }

-- A new start of the program on the session's files.
abbrev pub restarted : Environment → Access → Session → Session
restarted env access s = create_session env access s.files

-- The files agree with the session.
abbrev Agrees : Environment → Access → Session → Type 0
Agrees env access s = (restarted env access s).logged_in ≡ s.logged_in

same_files :
    (env : Environment) (access : Access) (files : Files)
    → (create_session env access files).files ≡ files
unfolding create_session
same_files env access files = by_load (load env access files) refl
  where
    by_load :
        (o : Option (Option (String × String)))
        → load env access files ≡ o
        → (create_session env access files).files ≡ files
    by_load none e = rw (e, create_session) refl
    by_load (some none) e = rw (e, create_session) refl
    by_load (some (some _)) e = rw (e, create_session) refl

start-Agrees :
    (env : Environment) (access : Access) (files : Files)
    → Agrees env access (create_session env access files)
start-Agrees env access files =
    ap (λ (f : Files). (create_session env access f).logged_in) (same_files env access files)

started_with :
    (env : Environment) (access : Access) (files : Files) (t : String × String)
    → load env access files ≡ some (some t)
    → (create_session env access files).logged_in ≡ true
unfolding create_session
started_with env access files t e = rw (e, create_session) refl

started_without :
    (env : Environment) (access : Access) (files : Files)
    → load env access files ≡ some none
    → (create_session env access files).logged_in ≡ false
unfolding create_session
started_without env access files e = rw (e, create_session) refl

module _ (trimmed : String → String) (env : Environment) (access : Access) (path : String)
    (u : IsUsable env access path) where
  login-Agrees :
      (email password : String) (s : Session)
      → Agrees env access s
      → Agrees env access (login trimmed env access email password s).0
  unfolding login save
  login-Agrees email password s i =
      elim (Bool-cases (is_empty (trimmed email) || is_empty password)) [
        | inl e ↦ rw (e, login) i
        | inr e ↦
            rw (e, login, u.named, save, u.prepared, u.opened)
              (started_with env access _ ("access_token_placeholder", "refresh_token_placeholder")
                (read_back env access path "access_token_placeholder" "refresh_token_placeholder" _
                  u refl refl (rw (str_eq_refl path) refl)))
      ]

  logout-Agrees : (s : Session) → Agrees env access (logout env access s).0
  unfolding logout clear load
  logout-Agrees s =
      rw (u.named, logout, clear, u.removable)
        (started_without env access _ (rw (u.named, load, u.examined, str_eq_refl path) refl))

  run-Agrees :
      (s : Session) (ops : List Op)
      → Agrees env access s
      → Agrees env access (run trimmed env access s ops)
  unfolding run
  run-Agrees s [] i = i
  run-Agrees s (logs_in email password ∷ ops) i =
      run-Agrees (login trimmed env access email password s).0 ops (login-Agrees email password s i)
  run-Agrees s (logs_out ∷ ops) i = run-Agrees (logout env access s).0 ops (logout-Agrees s)

-- After any sequence of logins, refused ones too, and logouts, a new start of the program is signed
-- in exactly if the user was at the end, where the token file has a path and is usable.
pub restart_lem :
    (trimmed : String → String) (env : Environment) (access : Access) (path : String)
    (files : Files) (ops : List Op)
    → IsUsable env access path
    → (restarted env access
        (run trimmed env access (create_session env access files) ops)).logged_in
      ≡ (run trimmed env access (create_session env access files) ops).logged_in
restart_lem trimmed env access path files ops u =
    run-Agrees trimmed env access path u (create_session env access files) ops
      (start-Agrees env access files)
