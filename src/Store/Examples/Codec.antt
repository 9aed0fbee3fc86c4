-- ===== src/Store/Examples/Codec.antt =====
-- A marshalling of the state of internal/store that can be run, for the examples.
use carrel.Prelude.{
  ℕ, zero, suc, ◌≡◌, refl, ap, Bool, true, false, Option, none, some, List, [], ◌∷◌, length, Text,
  ℤ, pos, negsuc,
}
use carrel.Random.{Bytes}
use carrel.Crypto.{Params, PasswordHash, Escrow}
use carrel.Store.Types.{State, User, Invite, AuditEntry, Settings, Smtp, EscrowSettings}

-- What is written is read back, whatever follows it.
pub record Codec (A : Type 0) : Type 0 where
  pub put : A → Bytes → Bytes
  pub get : Bytes → Option (A × Bytes)
  pub law : (a : A) (rest : Bytes) → get (put a rest) ≡ some (a, rest)

abbrev number : Codec ℕ
number = record {
  put = λ n rest. n ∷ rest;
  get = λ b. elim b [ [] ↦ none | n ∷ rest ↦ some (n, rest) ];
  law = λ n rest. refl;
}

abbrev get_flag : Bytes → Option (Bool × Bytes)
get_flag [] = none
get_flag (zero ∷ rest) = some (false, rest)
get_flag (suc n ∷ rest) = some (true, rest)

abbrev put_flag : Bool → Bytes → Bytes
put_flag true rest = 1 ∷ rest
put_flag false rest = 0 ∷ rest

pub flag_law : (b : Bool) (rest : Bytes) → get_flag (put_flag b rest) ≡ some (b, rest)
flag_law true rest = refl
flag_law false rest = refl

abbrev flag : Codec Bool
flag = record { put = put_flag; get = get_flag; law = flag_law }

module _ {A B : Type 0} where
  abbrev get_pair : Codec A → Codec B → Bytes → Option ((A × B) × Bytes)
  get_pair c d b = elim (c.get b) [
    | none ↦ none
    | some (x, more) ↦ elim (d.get more) [ none ↦ none | some (y, rest) ↦ some ((x, y), rest) ]
  ]

  pub pair_law :
      (c : Codec A) (d : Codec B) (x : A) (y : B) (rest : Bytes)
      → get_pair c d (c.put x (d.put y rest)) ≡ some ((x, y), rest)
  pair_law c d x y rest = rw (get_pair, c.law x (d.put y rest), d.law y rest) refl

  infixr 40 ◌⊗◌
  abbrev ◌⊗◌ : Codec A → Codec B → Codec (A × B)
  c ⊗ d = record {
    put = λ xy rest. c.put xy.0 (d.put xy.1 rest);
    get = get_pair c d;
    law = λ xy rest. pair_law c d xy.0 xy.1 rest;
  }

  abbrev get_through : Codec A → (A → B) → Bytes → Option (B × Bytes)
  get_through c f b = elim (c.get b) [ none ↦ none | some (x, rest) ↦ some (f x, rest) ]

  pub through_law :
      (c : Codec A) (f : A → B) (g : B → A)
      → ((y : B) → f (g y) ≡ y)
      → (y : B) (rest : Bytes) → get_through c f (c.put (g y) rest) ≡ some (y, rest)
  through_law c f g e y rest = rw (get_through, c.law (g y) rest) (ap (λ z. some (z, rest)) (e y))

  abbrev through : Codec A → (f : A → B) (g : B → A) → ((y : B) → f (g y) ≡ y) → Codec B
  through c f g e = record {
    put = λ y rest. c.put (g y) rest;
    get = get_through c f;
    law = through_law c f g e;
  }

module _ {A : Type 0} (c : Codec A) where
  abbrev put_many : List A → Bytes → Bytes
  put_many [] rest = rest
  put_many (x ∷ xs) rest = c.put x (put_many xs rest)

  abbrev get_many : ℕ → Bytes → Option (List A × Bytes)
  get_many zero b = some ([], b)
  get_many (suc n) b = elim (c.get b) [
    | none ↦ none
    | some (x, more) ↦ elim (get_many n more) [
      | none ↦ none
      | some (xs, rest) ↦ some (x ∷ xs, rest)
    ]
  ]

  pub many_law :
      (xs : List A) (rest : Bytes) → get_many (length xs) (put_many xs rest) ≡ some (xs, rest)
  many_law [] rest = refl
  many_law (x ∷ xs) rest = rw (c.law x (put_many xs rest), many_law xs rest) refl

  abbrev get_list : Bytes → Option (List A × Bytes)
  get_list [] = none
  get_list (n ∷ b) = get_many n b

  abbrev list : Codec (List A)
  list = record { put = λ xs rest. length xs ∷ put_many xs rest; get = get_list; law = many_law }

  abbrev put_option : Option A → Bytes → Bytes
  put_option none rest = 0 ∷ rest
  put_option (some x) rest = 1 ∷ c.put x rest

  abbrev get_option : Bytes → Option (Option A × Bytes)
  get_option [] = none
  get_option (zero ∷ b) = some (none, b)
  get_option (suc n ∷ b) = elim (c.get b) [ none ↦ none | some (x, rest) ↦ some (some x, rest) ]

  pub option_law : (o : Option A) (rest : Bytes) → get_option (put_option o rest) ≡ some (o, rest)
  option_law none rest = refl
  option_law (some x) rest = rw (c.law x rest) refl

  abbrev option : Codec (Option A)
  option = record { put = put_option; get = get_option; law = option_law }

abbrev put_integer : ℤ → Bytes → Bytes
put_integer (pos n) rest = 0 ∷ n ∷ rest
put_integer (negsuc n) rest = 1 ∷ n ∷ rest

abbrev get_integer : Bytes → Option (ℤ × Bytes)
get_integer (zero ∷ n ∷ rest) = some (pos n, rest)
get_integer (suc m ∷ n ∷ rest) = some (negsuc n, rest)
get_integer (m ∷ []) = none
get_integer [] = none

pub integer_law : (z : ℤ) (rest : Bytes) → get_integer (put_integer z rest) ≡ some (z, rest)
integer_law (pos n) rest = refl
integer_law (negsuc n) rest = refl

abbrev integer : Codec ℤ
integer = record { put = put_integer; get = get_integer; law = integer_law }

abbrev string : Codec Text
string = list number

abbrev costs : Codec Params
costs =
    through (number ⊗ number ⊗ number ⊗ number)
      (λ t.
        let (x0, (x1, (x2, x3))) = t in
        record { time = x0; memory = x1; threads = x2; key_length = x3 })
      (λ r. (r.time, (r.memory, (r.threads, r.key_length)))) (λ r. refl)

abbrev hash : Codec PasswordHash
hash =
    through (costs ⊗ string ⊗ string)
      (λ t. let (x0, (x1, x2)) = t in record { params = x0; salt = x1; hash = x2 })
      (λ r. (r.params, (r.salt, r.hash))) (λ r. refl)

abbrev deposit : Codec Escrow
deposit =
    through (string ⊗ string ⊗ string ⊗ costs)
      (λ t.
        let (x0, (x1, (x2, x3))) = t in
        record { public_key = x0; sealed_key = x1; master_salt = x2; master_params = x3 })
      (λ r. (r.public_key, (r.sealed_key, (r.master_salt, r.master_params)))) (λ r. refl)

abbrev user : Codec User
user =
    through
      (string
        ⊗ string
        ⊗ string
        ⊗ string
        ⊗ flag
        ⊗ string
        ⊗ flag
        ⊗ number
        ⊗ string
        ⊗ number
        ⊗ flag
        ⊗ flag
        ⊗ (option hash)
        ⊗ string
        ⊗ costs
        ⊗ string
        ⊗ string
        ⊗ flag
        ⊗ number
        ⊗ string
        ⊗ number
        ⊗ string
        ⊗ string
        ⊗ number
        ⊗ string
        ⊗ string
        ⊗ string)
      (λ t.
        let (
          x0,
          (
            x1,
            (
              x2,
              (
                x3,
                (
                  x4,
                  (
                    x5,
                    (
                      x6,
                      (
                        x7,
                        (
                          x8,
                          (
                            x9,
                            (
                              x10,
                              (
                                x11,
                                (
                                  x12,
                                  (
                                    x13,
                                    (
                                      x14,
                                      (
                                        x15,
                                        (
                                          x16,
                                          (
                                            x17,
                                            (
                                              x18,
                                              (x19, (x20, (x21, (x22, (x23, (x24, (x25, x26))))))),
                                            ),
                                          ),
                                        ),
                                      ),
                                    ),
                                  ),
                                ),
                              ),
                            ),
                          ),
                        ),
                      ),
                    ),
                  ),
                ),
              ),
            ),
          ),
        ) =
          t in
        record {
          id = x0;
          login = x1;
          email = x2;
          display_name = x3;
          email_confirmed = x4;
          role = x5;
          disabled = x6;
          created_at = x7;
          created_by = x8;
          last_login_at = x9;
          must_change_password = x10;
          unconfirmed = x11;
          auth = x12;
          kek_salt = x13;
          kek_params = x14;
          wrapped_dek = x15;
          escrow_dek = x16;
          escrow_notice_seen = x17;
          escrow_recovered_at = x18;
          secrets = x19;
          dav_account_count = x20;
          pending_email = x21;
          email_change_token_hash = x22;
          email_change_expires = x23;
          week_start = x24;
          contact_sort = x25;
          note_sort = x26;
        })
      (λ r. (
        r.id,
        (
          r.login,
          (
            r.email,
            (
              r.display_name,
              (
                r.email_confirmed,
                (
                  r.role,
                  (
                    r.disabled,
                    (
                      r.created_at,
                      (
                        r.created_by,
                        (
                          r.last_login_at,
                          (
                            r.must_change_password,
                            (
                              r.unconfirmed,
                              (
                                r.auth,
                                (
                                  r.kek_salt,
                                  (
                                    r.kek_params,
                                    (
                                      r.wrapped_dek,
                                      (
                                        r.escrow_dek,
                                        (
                                          r.escrow_notice_seen,
                                          (
                                            r.escrow_recovered_at,
                                            (
                                              r.secrets,
                                              (
                                                r.dav_account_count,
                                                (
                                                  r.pending_email,
                                                  (
                                                    r.email_change_token_hash,
                                                    (
                                                      r.email_change_expires,
                                                      (r.week_start, (r.contact_sort, r.note_sort)),
                                                    ),
                                                  ),
                                                ),
                                              ),
                                            ),
                                          ),
                                        ),
                                      ),
                                    ),
                                  ),
                                ),
                              ),
                            ),
                          ),
                        ),
                      ),
                    ),
                  ),
                ),
              ),
            ),
          ),
        ),
      ))
      (λ r. refl)

abbrev invite : Codec Invite
invite =
    through
      (string ⊗ string ⊗ string ⊗ string ⊗ string ⊗ string ⊗ number ⊗ string ⊗ number ⊗ number
        ⊗ number ⊗ number ⊗ string ⊗ string)
      (λ t.
        let (x0, (x1, (x2, (x3, (x4, (x5, (x6, (x7, (x8, (x9, (x10, (x11, (x12, x13))))))))))))) =
          t in
        record {
          id = x0;
          login = x1;
          email = x2;
          role = x3;
          delivery = x4;
          token_hash = x5;
          created_at = x6;
          created_by = x7;
          expires_at = x8;
          accepted_at = x9;
          revoked_at = x10;
          last_sent_at = x11;
          send_status = x12;
          send_error = x13;
        })
      (λ r. (
        r.id,
        (
          r.login,
          (
            r.email,
            (
              r.role,
              (
                r.delivery,
                (
                  r.token_hash,
                  (
                    r.created_at,
                    (
                      r.created_by,
                      (
                        r.expires_at,
                        (
                          r.accepted_at,
                          (r.revoked_at, (r.last_sent_at, (r.send_status, r.send_error))),
                        ),
                      ),
                    ),
                  ),
                ),
              ),
            ),
          ),
        ),
      ))
      (λ r. refl)

abbrev relay : Codec Smtp
relay =
    through (string ⊗ integer ⊗ string ⊗ string ⊗ string ⊗ string ⊗ string)
      (λ t.
        let (x0, (x1, (x2, (x3, (x4, (x5, x6)))))) = t in
        record {
          host = x0;
          port = x1;
          tls = x2;
          username = x3;
          password = x4;
          from_address = x5;
          from_name = x6;
        })
      (λ r. (r.host, (r.port, (r.tls, (r.username, (r.password, (r.from_address, r.from_name)))))))
      (λ r. refl)

abbrev deposit_settings : Codec EscrowSettings
deposit_settings =
    through (flag ⊗ flag ⊗ (option deposit))
      (λ t. let (x0, (x1, x2)) = t in record { enabled = x0; forbid_opt_out = x1; config = x2 })
      (λ r. (r.enabled, (r.forbid_opt_out, r.config))) (λ r. refl)

abbrev settings : Codec Settings
settings =
    through (flag ⊗ integer ⊗ integer ⊗ integer ⊗ relay ⊗ deposit_settings)
      (λ t.
        let (x0, (x1, (x2, (x3, (x4, x5))))) = t in
        record {
          self_registration = x0;
          invite_ttl_seconds = x1;
          session_idle_seconds = x2;
          session_absolute_seconds = x3;
          smtp = x4;
          escrow = x5;
        })
      (λ r. (
        r.self_registration,
        (
          r.invite_ttl_seconds,
          (r.session_idle_seconds, (r.session_absolute_seconds, (r.smtp, r.escrow))),
        ),
      ))
      (λ r. refl)

abbrev audit_entry : Codec AuditEntry
audit_entry =
    through (number ⊗ number ⊗ string ⊗ string ⊗ string ⊗ string ⊗ string ⊗ string ⊗ string)
      (λ t.
        let (x0, (x1, (x2, (x3, (x4, (x5, (x6, (x7, x8)))))))) = t in
        record {
          seq = x0;
          at = x1;
          action = x2;
          actor_id = x3;
          actor_login = x4;
          target_id = x5;
          target_login = x6;
          ip = x7;
          detail = x8;
        })
      (λ r. (
        r.seq,
        (
          r.at,
          (
            r.action,
            (r.actor_id, (r.actor_login, (r.target_id, (r.target_login, (r.ip, r.detail))))),
          ),
        ),
      ))
      (λ r. refl)

abbrev pub state : Codec State
state =
    through (number ⊗ number ⊗ (list user) ⊗ (list invite) ⊗ settings ⊗ (list audit_entry) ⊗ number)
      (λ t.
        let (x0, (x1, (x2, (x3, (x4, (x5, x6)))))) = t in
        record {
          version = x0;
          created_at = x1;
          users = x2;
          invites = x3;
          settings = x4;
          audit = x5;
          audit_seq = x6;
        })
      (λ r.
        (r.version, (r.created_at, (r.users, (r.invites, (r.settings, (r.audit, r.audit_seq)))))))
      (λ r. refl)
