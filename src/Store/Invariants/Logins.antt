-- ===== src/Store/Invariants/Logins.antt =====
-- internal/store/users.go: no two accounts have one login.
use carrel.Prelude.{
  ◌≡◌, refl, sym, inl, inr, false, Bool-cases, none, List, [], ◌∷◌, ◌++◌, find, Text, text_eq, ◌==◌,
  ==_iff, arith,
}
use carrel.Store.Types.{User}
use carrel.Store.Base.{Env, IsLawful, World, Store}
use carrel.Store.Service.{Request, handle, serve}
use carrel.Store.Effects.{Edited, Removed, UsersStep, here, there, same, edited, added, removed}
use carrel.Store.Effects.Requests.{handle-Effect}

-- No account has the login.
unfoldable pub IsFree : Text → List User → Type 0
IsFree l us = find (λ (x : User). x.login == l) us ≡ none

-- The logins of the accounts differ.
unfoldable pub HaveUniqueLogins : List User → Type 0
HaveUniqueLogins [] = Unit
HaveUniqueLogins (u ∷ us) = IsFree u.login us × HaveUniqueLogins us

Edited-IsFree :
    {us vs : List User} {u v : User} (l : Text)
    → Edited us u v vs
    → v.login ≡ u.login
    → IsFree l us
    → IsFree l vs
unfolding IsFree
Edited-IsFree l here e h = ground arith
Edited-IsFree l (there {x = x} d) e h = elim (Bool-cases (x.login == l)) [
  | inl q ↦ absurd (ground arith)
  | inr q ↦ ground (arith, Edited-IsFree l d e (ground arith))
]

Removed-IsFree :
    {us vs : List User} {u : User} (l : Text) → Removed us u vs → IsFree l us → IsFree l vs
unfolding IsFree
Removed-IsFree l (here {u = u}) h = elim (Bool-cases (u.login == l)) [
  | inl q ↦ absurd (ground arith)
  | inr q ↦ ground arith
]
Removed-IsFree l (there {x = x} d) h = elim (Bool-cases (x.login == l)) [
  | inl q ↦ absurd (ground arith)
  | inr q ↦ ground (arith, Removed-IsFree l d (ground arith))
]

Edited-HaveUniqueLogins :
    {us vs : List User} {u v : User}
    → Edited us u v vs
    → v.login ≡ u.login
    → HaveUniqueLogins us
    → HaveUniqueLogins vs
unfolding HaveUniqueLogins
Edited-HaveUniqueLogins here e (f, h) = (rw e f, h)
Edited-HaveUniqueLogins (there {x = x} d) e (f, h) =
    (Edited-IsFree x.login d e f, Edited-HaveUniqueLogins d e h)

Removed-HaveUniqueLogins :
    {us vs : List User} {u : User} → Removed us u vs → HaveUniqueLogins us → HaveUniqueLogins vs
unfolding HaveUniqueLogins
Removed-HaveUniqueLogins here (f, h) = h
Removed-HaveUniqueLogins (there {x = x} d) (f, h) =
    (Removed-IsFree x.login d f, Removed-HaveUniqueLogins d h)

IsFree-append :
    (l : Text) (us : List User) (u : User)
    → IsFree l us
    → (u.login == l) ≡ false
    → IsFree l (us ++ u ∷ [])
unfolding IsFree
IsFree-append l [] u h e = ground arith
IsFree-append l (x ∷ us) u h e = elim (Bool-cases (x.login == l)) [
  | inl q ↦ absurd (ground arith)
  | inr q ↦ ground (arith, IsFree-append l us u (ground arith) e)
]

-- The comparison of two logins is symmetric.
differ : (a b : Text) → (a == b) ≡ false → (b == a) ≡ false
differ a b h = elim (Bool-cases (b == a)) [
  | inr q ↦ q
  | inl q ↦ let e : a ≡ b = sym ((==_iff b a).0 q) in absurd (ground (arith, (==_iff a b).1 e, h))
]

HaveUniqueLogins-append :
    (us : List User) (u : User)
    → IsFree u.login us
    → HaveUniqueLogins us
    → HaveUniqueLogins (us ++ u ∷ [])
unfolding HaveUniqueLogins IsFree
HaveUniqueLogins-append [] u f h = (refl, tt)
HaveUniqueLogins-append (x ∷ us) u f (g, h) = elim (Bool-cases (x.login == u.login)) [
  | inl q ↦ absurd (ground arith)
  | inr q ↦ (
    IsFree-append x.login us u g (differ x.login u.login q),
    HaveUniqueLogins-append us u (ground arith) h,
  )
]

UsersStep-HaveUniqueLogins :
    {us vs : List User} → UsersStep us vs → HaveUniqueLogins us → HaveUniqueLogins vs
unfolding IsFree
UsersStep-HaveUniqueLogins (same e) h = rw e h
UsersStep-HaveUniqueLogins (edited u v d l a) h = Edited-HaveUniqueLogins d l h
UsersStep-HaveUniqueLogins {us} (added u f e) h = rw e (HaveUniqueLogins-append us u f h)
UsersStep-HaveUniqueLogins (removed u d e) h = Removed-HaveUniqueLogins d h

-- The logins of the accounts differ after any sequence of requests when they differed before.
pub serve-HaveUniqueLogins :
    (env : Env) (laws : IsLawful env) (calls : List (World × Request)) (s : Store)
    → HaveUniqueLogins s.state.users
    → HaveUniqueLogins (serve env calls s).state.users
unfolding serve
serve-HaveUniqueLogins env laws [] s h = h
serve-HaveUniqueLogins env laws ((w, r) ∷ calls) s h =
    serve-HaveUniqueLogins env laws calls (handle env w r s)
      (UsersStep-HaveUniqueLogins (handle-Effect env laws w r s).users h)
