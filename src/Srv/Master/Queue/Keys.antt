-- ===== src/Srv/Master/Queue/Keys.antt =====
-- srv/master_service.go: the map of the working tasks under its operations.
use text.Mathlib.Text.{◌==◌}
use text.Mathlib.TextEquality.{eq_iff}
use open_peacock.Prelude.{
  ◌≡◌, refl, sym, ap, ◌∙◌, subst, ◌⊎◌, inl, inr, none, some, List, [], ◌∷◌, String, if◌then◌else◌,
  Bool-cases,
}
use open_peacock.Srv.Task.{Task}
use open_peacock.Srv.Master.Queue.{find_task, delete_task, put_task}

pub find-delete_self :
    (k : String) (m : List (String × Task)) → find_task k (delete_task k m) ≡ none
unfolding find_task delete_task
find-delete_self k [] = refl
find-delete_self k (e ∷ m) = elim (Bool-cases (k == e.0)) [
  | inl q ↦ rw q (find-delete_self k m)
  | inr q ↦ rw (q, q) (find-delete_self k m)
]

pub find-delete :
    (k j : String) (m : List (String × Task)) (t : Task)
    → find_task j (delete_task k m) ≡ some t
    → find_task j m ≡ some t
unfolding find_task delete_task
find-delete k j [] t h = h
find-delete k j (e ∷ m) t h = elim (Bool-cases (k == e.0)) [
  | inl q ↦
      let g : find_task j (delete_task k m) ≡ some t = rw q at h in
      elim (Bool-cases (j == e.0)) [
        | inl r ↦
            let same = (eq_iff j e.0).0 r ∙ sym ((eq_iff k e.0).0 q) in
            let gone : find_task j (delete_task k m) ≡ none =
              subst (λ (x : String). find_task x (delete_task k m) ≡ none) (sym same)
                (find-delete_self k m) in
            cc (sym gone ∙ g)
        | inr r ↦ rw r (find-delete k j m t g)
      ]
  | inr q ↦
      let g : (if j == e.0 then some e.1 else find_task j (delete_task k m)) ≡ some t = rw q at h in
      elim (Bool-cases (j == e.0)) [
        | inl r ↦ rw r (rw r at g)
        | inr r ↦ rw r (find-delete k j m t (rw r at g))
      ]
]

pub find-put_self :
    (k : String) (t : Task) (m : List (String × Task)) → find_task k (put_task k t m) ≡ some t
unfolding find_task put_task
find-put_self k t m = rw ((eq_iff k k).1 refl)

-- Every working task names the squad that works on it.
abbrev pub IsAssigned : List (String × Task) → Type 0
IsAssigned m = (k : String) (t : Task) → find_task k m ≡ some t → t.coord ≡ k

pub put-IsAssigned :
    (k : String) (t : Task) (m : List (String × Task))
    → t.coord ≡ k
    → IsAssigned m
    → IsAssigned (put_task k t m)
unfolding put_task find_task
put-IsAssigned k t m e h j u g = elim (Bool-cases (j == k)) [
  | inl q ↦
      let same : some t ≡ some u = rw q at g in
      let t_u : t ≡ u = cc in ap (λ x. x.coord) (sym t_u) ∙ e ∙ sym ((eq_iff j k).0 q)
  | inr q ↦ h j u (find-delete k j m u (rw q at g))
]

pub delete-IsAssigned :
    (k : String) (m : List (String × Task)) → IsAssigned m → IsAssigned (delete_task k m)
delete-IsAssigned k m h j u g = h j u (find-delete k j m u g)

pub List-cases : {A : Type 0} (xs : List A) → (xs ≡ []) ⊎ ((y : A) × (ys : List A) × (xs ≡ y ∷ ys))
List-cases [] = inl refl
List-cases (x ∷ xs) = inr (x, xs, refl)
