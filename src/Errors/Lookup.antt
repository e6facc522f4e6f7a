-- ===== src/Errors/Lookup.antt =====
-- What is found in a map after a write.
use stv_renew.Prelude.{◌≡◌, String, List, [], ◌∷◌, some, false, str_eq, arith, eq_iff}
use stv_renew.Errors.{put, look_up}

module _ {V : Type 0} where
  pub look_up-put_same :
      (k : String) (v : V) (m : List (String × V)) → look_up k (put k v m) ≡ some v
  unfolding look_up put
  look_up-put_same k v [] = ground (arith, eq_iff k k)
  look_up-put_same k v ((j, w) ∷ m) = ground (arith, look_up-put_same k v m, eq_iff j k, eq_iff k k)

  pub look_up-put_other :
      (k j : String) (v : V) (m : List (String × V))
      → str_eq k j ≡ false
      → look_up j (put k v m) ≡ look_up j m
  unfolding look_up put
  look_up-put_other k j v [] h = ground (arith)
  look_up-put_other k j v ((i, w) ∷ m) h =
      ground (arith, look_up-put_other k j v m, eq_iff i k, eq_iff i j, eq_iff k j)
