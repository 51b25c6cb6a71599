-- ===== src/Authority/Roles/Cycles/Unvisited.antt =====
-- core/src/governance/authority/perms.rs, `dfs_cycle`: what the marks hold, and the keys that are
-- not visited yet, which bound the search.
use root_cx.Prelude.{
  Option, some, none, ℕ, suc, ◌≤◌, ◌<◌, ◌≡◌, refl, sym, ap, inl, inr, arith, true, false,
  Bool-cases, List, [], ◌∷◌, Memᴰ, Text, text_eq, text_eq_refl, text_eq_sound, length,
  if◌then◌else◌,
}
use root_cx.Prelude.Maps.{Map, insert, insert_other}
use root_cx.Prelude.Sets.{contains_sound, contains_of_mem}
use root_cx.Authority.Roles.{contains, parents_of}
use root_cx.Authority.Roles.Cycles.{Roles, keys, get, without}

pub without_absent :
    (node : Text) (xs : List Text) → contains xs node ≡ false → without node xs ≡ xs
unfolding without
without_absent node [] h = refl
without_absent node (x ∷ xs) h = ground (arith, without_absent node xs)

-- The keys that are not visited.
pub unvisited : Roles → List Text → ℕ
unvisited [] visited = 0
unvisited ((role, _) ∷ rest) visited =
    let more = unvisited rest visited in if contains visited role then more else suc more

pub unvisited_le_length :
    (roles : Roles) (visited : List Text) → unvisited roles visited ≤ length roles
unfolding unvisited
unvisited_le_length [] visited = omega arith
unvisited_le_length ((role, _) ∷ rest) visited = ground (arith, unvisited_le_length rest visited)

abbrev pub Within : List Text → List Text → Type 0
Within xs ys = (x : Text) → Memᴰ x xs → Memᴰ x ys

pub Within-contains :
    (xs ys : List Text) (x : Text) → Within xs ys → contains xs x ≡ true → contains ys x ≡ true
Within-contains xs ys x w h = contains_of_mem ys x (w x (contains_sound xs x h))

pub unvisited_mono :
    (roles : Roles) (xs ys : List Text) → Within xs ys → unvisited roles ys ≤ unvisited roles xs
unfolding unvisited
unvisited_mono [] xs ys w = omega arith
unvisited_mono ((role, _) ∷ rest) xs ys w =
    ground (arith, unvisited_mono rest xs ys w, Within-contains xs ys role w)

parents_of_other :
    (key role : Text) (parents : List Text) (roles : Map (List Text))
    → text_eq key role ≡ false
    → parents_of (insert key parents roles) role ≡ parents_of roles role
parents_of_other key role parents roles f =
    ap
      (λ (entry : Option (List Text)).
        let parents : List Text = elim entry [ some found ↦ found | none ↦ [] ] in parents)
      (insert_other key role parents roles f)

-- Only a key has parents.
pub parents-key :
    (roles : Roles) (role parent : Text)
    → Memᴰ parent (parents_of (get roles) role)
    → Memᴰ role (keys roles)
parents-key [] role parent m = elim m [ ]
parents-key ((key, parents) ∷ rest) role parent m = elim (Bool-cases (text_eq key role)) [
  | inl t ↦ Memᴰ.head (sym (text_eq_sound key role t))
  | inr f ↦
      Memᴰ.tail
        (parents-key rest role parent (rw (parents_of_other key role parents (get rest) f) at m))
]

pub tail-Within : (x : Text) (xs : List Text) → Within xs (x ∷ xs)
tail-Within x xs y m = Memᴰ.tail m

pub unvisited_drop :
    (roles : Roles) (visited : List Text) (role : Text)
    → Memᴰ role (keys roles)
    → contains visited role ≡ false
    → unvisited roles (role ∷ visited) < unvisited roles visited
unfolding unvisited
unvisited_drop [] visited role m f = elim m [ ]
unvisited_drop ((key, _) ∷ rest) visited role (Memᴰ.head e) f =
    let new : contains visited key ≡ false = rw (← e) f in
    let here : text_eq key role ≡ true = rw e (text_eq_refl key) in
    ground (arith, unvisited_mono rest visited (role ∷ visited) (tail-Within role visited))
unvisited_drop ((key, _) ∷ rest) visited role (Memᴰ.tail m) f =
    ground (arith, unvisited_drop rest visited role m f)
