-- ===== src/Teams/Membership.antt =====
-- Who is in a team and who changes one, under any sequence of calls of app/api/v1/endpoints/teams.py.
use python_fastapi_multiauth.Common.{
  ℕ, ◌≡◌, refl, sym, ap, ◌∙◌, Bool, true, false, some, is_some, List, [], ◌∷◌, not, ◌&&◌, ◌==◌,
  ==_iff, arith, inl, inr, Bool-cases, Option-cases, http, ok, ok≢err, bind-ok, raise_if-ok,
  ok-injective, only_row, only_row-some, select, select-holds, exists, exists-append, exists-found,
  All-map, All-append, All-left, save, delete_where, All, update_where-none,
}
use mathlib.Core.Path.{subst}
use mathlib.Core.List.{head-eq_of_cons-eq, tail-eq_of_cons-eq}
use python_fastapi_multiauth.Tenancy.Model as Tenancy
use python_fastapi_multiauth.Tenancy.Organizations as Organizations
use python_fastapi_multiauth.Teams.Service as Teams
use python_fastapi_multiauth.Teams.Service.{
  Team, TeamMember, Db, TeamCreate, TeamUpdate, team_key, team_is, in_organization, membership,
  of_team, create, update, delete, get_by_slug,
}
use python_fastapi_multiauth.Teams.Endpoints.{
  in_org, create_team, open_team, update_team, delete_team, add_team_member, remove_team_member,
}

-- The team of a membership is there, and its user is a member of the team's organisation.
abbrev pub team_fits : Db → TeamMember → Team → Bool
team_fits db m t = t.id == m.team_id && in_org t.organization_id m.user_id db

abbrev pub belongs : Db → List Team → TeamMember → Bool
belongs db teams m = exists (team_fits db m) teams

abbrev pub WithinOrganization : Db → Type 0
WithinOrganization db = All (λ m. belongs db db.teams m ≡ true) db.team_members

-- A team that is changed keeps its organisation and its members.
exists-save :
    (p : Team → Bool) (t t' : Team) (ts : List Team)
    → select (team_is t.id) ts ≡ t ∷ []
    → t'.id ≡ t.id
    → p t' ≡ p t
    → exists p ts ≡ true
    → exists p (save team_key t' ts) ≡ true
exists-save p t t' [] h key e there = ground arith
exists-save p t t' (u ∷ ts) h key e there = elim (Bool-cases (u.id == t.id)) [
  | inl here ↦
      let h : u ∷ select (team_is t.id) ts ≡ t ∷ [] = rw here at h in
      let same : p u ≡ p t = ap p (head-eq_of_cons-eq h) in
      let alone : save team_key t' ts ≡ ts =
        update_where-none (team_is t'.id) (λ _. t') ts
          (ap (λ k. select (team_is k) ts) key ∙ tail-eq_of_cons-eq h) in
      let hit : (u.id == t'.id) ≡ true = ap (λ k. u.id == k) key ∙ here in
      rw (hit, alone, e ∙ sym same) there
  | inr elsewhere ↦
      let h : select (team_is t.id) ts ≡ t ∷ [] = rw elsewhere at h in
      let miss : (u.id == t'.id) ≡ false = ap (λ k. u.id == k) key ∙ elsewhere in
      rw miss (ground (arith, exists-save p t t' ts h key e))
]

exists-delete :
    (p : Team → Bool) (id : ℕ) (ts : List Team)
    → ((t : Team) → p t ≡ true → team_is id t ≡ false)
    → exists p ts ≡ true
    → exists p (delete_where (team_is id) ts) ≡ true
exists-delete p id [] h there = there
exists-delete p id (t ∷ ts) h there = ground (arith, h t, exists-delete p id ts h)

-- What a call has tested when it gets past `open_team`.
pub open_team-found :
    (team_id user : ℕ) (db : Db) {team : Team}
    → open_team only_row team_id user db ≡ ok team
    → (select (team_is team_id) db.teams ≡ team ∷ []) × (in_org team.organization_id user db ≡ true)
unfolding open_team Teams.get_by_id
open_team-found team_id user db {team} h =
    bind-ok (Teams.get_by_id only_row team_id db) _ h (λ found asked h. elim (Option-cases found) [
      | inl absent ↦ let h = rw absent at h in absurd (ok≢err (sym h))
      | inr (t, there) ↦
          let h = rw there at h in
          raise_if-ok (not (in_org t.organization_id user db)) (http "403") _ h (λ member h.
            let same = ok-injective h in
            (
              only_row-some (select (team_is team_id) db.teams)
                  (asked ∙ ap ok there ∙ ap (λ x. ok (some x)) same),
              ap (λ x. in_org x.organization_id user db) (sym same) ∙ ground (arith, member),
            ))
    ])

pub created-Within :
    (new_id user : ℕ) (team_in : TeamCreate) (team : Team) (db db' : Db)
    → create_team only_row new_id user team_in db ≡ ok (team, db')
    → WithinOrganization db
    → WithinOrganization db'
unfolding create_team create
created-Within new_id user team_in team db db' h w =
    raise_if-ok (not (in_org team_in.organization_id user db)) (http "403") _ h (λ member h.
      bind-ok (Organizations.get_by_id only_row team_in.organization_id db.tenancy) _ h
        (λ org asked h. raise_if-ok (not (is_some org)) (http "404") _ h (λ there h.
          bind-ok (get_by_slug only_row team_in.slug team_in.organization_id db) _ h
            (λ existing searched h. raise_if-ok (is_some existing) (http "400") _ h (λ free h.
              let same = ok-injective h in
              subst WithinOrganization (ap (λ r. r.1) same) (
                All-map _ _ db.team_members
                  (λ m fits. exists-append (team_fits db m) db.teams _ fits) w))))))

opened-Within :
    (t : Team) (db : Db) (m : TeamMember)
    → select (team_is t.id) db.teams ≡ t ∷ []
    → (team_in : TeamUpdate) → belongs db db.teams m ≡ true
    → belongs db (update t team_in db).1.teams m ≡ true
unfolding update
opened-Within t db m row team_in fits = exists-save (team_fits db m) t _ db.teams row refl refl fits

pub updated-Within :
    (user team_id : ℕ) (team_in : TeamUpdate) (team : Team) (db db' : Db)
    → update_team only_row team_id user team_in db ≡ ok (team, db')
    → WithinOrganization db
    → WithinOrganization db'
unfolding update_team update
updated-Within user team_id team_in team db db' h w =
    bind-ok (open_team only_row team_id user db) _ h (λ t opened h.
      let same = ok-injective h in
      let row = (open_team-found team_id user db opened).0 in
      let key = (==_iff t.id team_id).0 (select-holds (team_is team_id) db.teams row) in
      subst WithinOrganization (ap (λ r. r.1) same) (
        All-map _ _ db.team_members
          (λ m fits.
            opened-Within t db m (ap (λ k. select (team_is k) db.teams) key ∙ row) team_in fits)
          w))

pub deleted-Within :
    (user team_id : ℕ) (db db' : Db)
    → delete_team only_row team_id user db ≡ ok db'
    → WithinOrganization db
    → WithinOrganization db'
unfolding delete_team delete
deleted-Within user team_id db db' h w =
    bind-ok (open_team only_row team_id user db) _ h (λ t opened h.
      subst WithinOrganization (ok-injective h) (
        All-left _ _ (of_team t.id) db.team_members
          (λ m other fits.
            exists-delete (team_fits db m) t.id db.teams (λ x ok_x. ground arith) fits)
          w))

pub added-Within :
    (user team_id who : ℕ) (db db' : Db)
    → add_team_member only_row team_id who user db ≡ ok db'
    → WithinOrganization db
    → WithinOrganization db'
unfolding add_team_member Teams.add_member
added-Within user team_id who db db' h w =
    bind-ok (open_team only_row team_id user db) _ h (λ t opened h.
      bind-ok (only_row Tenancy.User (select (Organizations.user_is who) db.tenancy.users)) _ h
        (λ found asked h. raise_if-ok (not (is_some found)) (http "404") _ h (λ there h.
          raise_if-ok (not (in_org t.organization_id who db)) (http "400") _ h (λ member h.
            raise_if-ok (Teams.is_member team_id who db) (http "400") _ h (λ new h.
              let row = (open_team-found team_id user db opened).0 in
              let key = (==_iff t.id team_id).0 (select-holds (team_is team_id) db.teams row) in
              subst WithinOrganization (ok-injective h) (
                All-append _ db.team_members _ w (
                  exists-found (team_fits db (record { user_id = who; team_id = team_id })) db.teams
                    (team_is team_id) row (ground (arith, key, member)))))))))

pub removed-Within :
    (user team_id who : ℕ) (db db' : Db)
    → remove_team_member only_row team_id who user db ≡ ok db'
    → WithinOrganization db
    → WithinOrganization db'
unfolding remove_team_member Teams.remove_member
removed-Within user team_id who db db' h w =
    bind-ok (open_team only_row team_id user db) _ h (λ t opened h.
      raise_if-ok (not (Teams.is_member team_id who db)) (http "400") _ h (λ in_team h.
        subst WithinOrganization (ok-injective h)
          (All-left _ _ (membership who team_id) db.team_members (λ m other fits. fits) w)))
