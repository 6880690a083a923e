-- ===== src/Edge/Config/Rows.antt =====
-- The credentials that `parseCredentials` accepts.
use muxbridge.Base.{
  ◌≡◌, ◌≢◌, refl, sym, ap, ◌∙◌, subst, none, some, List, [], ◌∷◌, ◌++◌, arith, Bytes, codes, All,
  All-mono, All-append, same_iff, bytes_eq, lookup, insert, lookup-insert, Option-cases, inl, inr,
}
use muxbridge.Base.Result.{ok}
use muxbridge.Base.Text.{trim_space, cut}
use muxbridge.Hostnames.{normalize_label}
use muxbridge.Hostnames.Labels.{IsLabel, validate_label_iff}
use muxbridge.Edge.Config.{
  check_credential, parse_entry, parse_credential, Credentials, no_credentials, add_credential,
  add_entry, add_entries,
}

-- A row that the server takes by itself.
pub record IsRow (row : Bytes × Bytes) : Type 0 where
  pub token : row.0 ≢ []
  pub label : IsLabel row.1
  pub free : row.1 ≢ codes "edge"

-- Rows with users that differ from each other.
abbrev pub Separate : List (Bytes × Bytes) → Type 0
Separate [] = Unit
Separate (row ∷ rows) = All (λ other. other.1 ≢ row.1) rows × Separate rows

check_credential-IsRow :
    (token username t u : Bytes) → check_credential token username ≡ ok (t, u) → IsRow (t, u)
unfolding check_credential
check_credential-IsRow token username t u e =
    ground (arith, validate_label_iff username, same_iff token [], same_iff username (codes "edge"))

parse_entry-eq-ok :
    (entry t u : Bytes)
    → parse_entry entry ≡ ok (t, u)
    → (token : Bytes) × (username : Bytes) × (check_credential token username ≡ ok (t, u))
unfolding parse_entry
parse_entry-eq-ok entry t u e = elim (Option-cases (cut b'=' entry)) [
  | inl n ↦ absurd (ground arith)
  | inr ((a, b), g) ↦ (trim_space a, normalize_label b, ground arith)
]

parse_credential-IsRow : (entry t u : Bytes) → parse_credential entry ≡ ok (t, u) → IsRow (t, u)
unfolding parse_credential
parse_credential-IsRow entry t u e =
    let (token, username, k) = parse_entry-eq-ok (trim_space entry) t u e in
    check_credential-IsRow token username t u k

pub record IsSound (c : Credentials) : Type 0 where
  pub rows : All IsRow c.users
  pub known : All (λ row. lookup row.1 c.tokens ≡ some row.0) c.users
  pub separate : Separate c.users

add_credential-eq-ok :
    (token username : Bytes) (c c' : Credentials)
    → add_credential token username c ≡ ok c'
    → (lookup token c.users ≡ none)
      × (lookup username c.tokens ≡ none)
      × (c'.users ≡ insert token username c.users)
      × (c'.tokens ≡ insert username token c.tokens)
unfolding add_credential
add_credential-eq-ok token username c c' e = ground arith

insert-append :
    (k v : Bytes) (m : List (Bytes × Bytes)) → lookup k m ≡ none → insert k v m ≡ m ++ (k, v) ∷ []
unfolding lookup insert
insert-append k v [] e = refl
insert-append k v ((j, w) ∷ m) e = ground (arith, insert-append k v m)

Separate-append :
    (m : List (Bytes × Bytes)) (row : Bytes × Bytes)
    → Separate m
    → All (λ other. other.1 ≢ row.1) m
    → Separate (m ++ row ∷ [])
Separate-append [] row s f = (tt, tt)
Separate-append (x ∷ m) row s f = (
  All-append (λ other. other.1 ≢ x.1) m (row ∷ []) s.0 (λ e. f.0 (sym e), tt),
  Separate-append m row s.1 f.1,
)

known_grown :
    (token username t u : Bytes) (c c' : Credentials)
    → c'.tokens ≡ insert username token c.tokens
    → lookup username c.tokens ≡ none
    → lookup u c.tokens ≡ some t
    → lookup u c'.tokens ≡ some t
known_grown token username t u c c' e n k =
    ground (arith, same_iff username u, lookup-insert username u token c.tokens)

add_credential-IsSound :
    (token username : Bytes) (c c' : Credentials)
    → add_credential token username c ≡ ok c'
    → IsRow (token, username)
    → IsSound c
    → IsSound c'
add_credential-IsSound token username c c' e row s =
    let (fresh_token, fresh_user, users, tokens) = add_credential-eq-ok token username c c' e in
    let appended = users ∙ insert-append token username c.users fresh_token in
    let others : All (λ other. other.1 ≢ username) c.users =
      All-mono c.users (λ other x y. cc (x, ap (λ u. lookup u c.tokens) y, fresh_user)) s.known in
    record {
      rows = subst (All IsRow) (sym appended) (All-append IsRow c.users _ s.rows (row, tt));
      known = subst (All (λ x. lookup x.1 c'.tokens ≡ some x.0)) (sym appended) (
          All-append (λ x. lookup x.1 c'.tokens ≡ some x.0) c.users _
            (All-mono c.users (λ x k. known_grown token username x.0 x.1 c c' tokens fresh_user k)
              s.known)
            (
              ground (
                arith,
                tokens,
                same_iff username username,
                lookup-insert username username token c.tokens,
              ),
              tt,
            ));
      separate =
          subst Separate (sym appended)
            (Separate-append c.users (token, username) s.separate others);
    }

add_entry-eq-ok :
    (entry : Bytes) (c c' : Credentials)
    → add_entry entry c ≡ ok c'
    → (row : Bytes × Bytes) × (parse_credential entry ≡ ok row)
      × (add_credential row.0 row.1 c ≡ ok c')
unfolding add_entry
add_entry-eq-ok entry c c' e = ground arith

add_entry-IsSound :
    (entry : Bytes) (c c' : Credentials) → add_entry entry c ≡ ok c' → IsSound c → IsSound c'
add_entry-IsSound entry c c' e s =
    let (row, parsed, added) = add_entry-eq-ok entry c c' e in
    add_credential-IsSound row.0 row.1 c c' added (parse_credential-IsRow entry row.0 row.1 parsed)
      s

add_entries-eq-ok :
    (entry : Bytes) (entries : List Bytes) (c c' : Credentials)
    → add_entries (entry ∷ entries) c ≡ ok c'
    → (d : Credentials) × (add_entry entry c ≡ ok d) × (add_entries entries d ≡ ok c')
unfolding add_entries
add_entries-eq-ok entry entries c c' e = ground arith

pub add_entries-IsSound :
    (entries : List Bytes) (c c' : Credentials)
    → add_entries entries c ≡ ok c'
    → IsSound c
    → IsSound c'
unfolding add_entries
add_entries-IsSound [] c c' e s = ground arith
add_entries-IsSound (entry ∷ entries) c c' e s =
    let (d, one, rest) = add_entries-eq-ok entry entries c c' e in
    add_entries-IsSound entries d c' rest (add_entry-IsSound entry c d one s)

pub no_credentials-IsSound : IsSound no_credentials
no_credentials-IsSound = record { rows = tt; known = tt; separate = tt }
