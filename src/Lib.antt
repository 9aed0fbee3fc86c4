-- ===== src/Lib.antt =====
-- Carrel is a self-hosted web front end for DAV servers. This library models the parts of its Go
-- code that decide something, and proves what makes them correct.
--
-- The parts, and the files that model them:
--
-- RateLimit (internal/ratelimit/ratelimit.go) throttles guessing at a secret. `Limiter` is the
-- record of options and entries; `allow`, `allow_all`, `fail`, `fail_all`, `reset`, `sweep` and
-- `len` are the methods of the same names, and `delay_for` with the loop `grow` is `delayFor`. A
-- time is a number of nanoseconds that the caller passes in place of the clock. The loop of
-- `delayFor` is a recursion on the rounds left, so it needs no fuel, and its products keep the
-- wrap-around of int64; a delay that has wrapped to below 0 ends before it begins (`after`). The mutex
-- is not modelled: each method is one step, and `allow_all` and `fail_all`, which take it once for each
-- key, get a reading of the clock with each key; no other call comes between two keys.
--
-- Crypto (internal/crypto) is the key schedule: Crypto/Keys.antt has Seal, Open, WrapDEK, UnwrapDEK,
-- password hashes and tokens (aead.go, argon2.go, keys.go, token.go); Crypto/Recovery.antt has the
-- key deposit (escrow.go). AES-GCM, Argon2id, X25519, HKDF, SHA-256 and the encodings are not in the
-- repository: `Primitives` in Crypto/Interface.antt is a record of such functions, and `AreLawful`
-- states what their documentation promises. Nothing is assumed about secrecy.
--
-- Store (internal/store) keeps the users, invitations, settings and audit log in one sealed file and
-- uses Crypto for every password and key. Store/Types.antt and Store/Validate.antt are model.go and
-- validate.go; Store/Volume.antt is writeAtomic, the sequence of its system calls, any of which may
-- fail, and Store/Replacement.antt what becomes of the state file; Store/Base.antt is
-- store.go and audit.go (`update`, `load`, `append_audit`); Store/Users.antt and Store/Accounts.antt
-- are users.go; Store/Invites.antt is invites.go; Store/Confirm.antt is register.go and
-- email_change.go; Store/Deposits.antt is escrow.go; Store/Preferences.antt is settings.go. A method
-- is the function that the code hands to `update`, named after the method with `_change`, and the
-- method around it. Store/Service.antt collects the modelled methods that change the state as
-- requests, and `serve` runs a sequence of them. Store/Effects has what each method can do to the
-- accounts and to the log, Store/Invariants what follows for sequences, Store/Commit.antt the state
-- file, Store/Access who can log in.
--
-- Merge (internal/merge) finds the records that describe one person or one meeting. Merge/Normalize,
-- Fingerprint, Score, Cluster and Fields are the files of these names, with what they read of
-- contact.go and email.go in internal/model; Merge/Similarity.antt is the distance of two names and
-- Merge/UnionFind.antt is unionFind. `find_root` runs on fuel: one more than the number of pairs,
-- enough because every pair makes a path to a root longer by one at most (Merge/Forest.antt,
-- Merge/Components.antt). A slice is a function of its index. Go iterates over the buckets in any
-- order, which is the argument `visit`; the groups, which are sorted afterwards, are met in the order
-- of insertion. A time is formatted by package time, a parameter.
--
-- Session (internal/session/session.go and scratch.go) keeps the logged-in browsers and their keys.
-- Session/Types.antt has the records, Session/Scratch.antt the drafts, Session/Manager.antt and
-- Session/Endings.antt the methods of Manager. A key is the address of a buffer and `keys` is the
-- memory; a session that has ended is kept in `shells` as it was left, and `effects` lists the caches
-- that were wiped, the files that were removed and the calls of OnEnd. `Reached` in
-- Session/Lifetimes.antt is every sequence of calls, with its logins; that two identifiers of 32 random bytes differ is
-- a condition on a login and on a rotation there. The encoding of an identifier is a parameter.
--
-- Files (internal/provider/files/path.go) checks the paths of files: Files.antt has its functions, and
-- path.Clean for a path that starts with a slash, by its documentation.
--
-- Fold (internal/model/fold.go) folds the lines of an encoded card. `write_folded` runs on fuel, one
-- more than the bytes of the line, enough because every round takes a byte or more.
--
-- Strings.antt is what the code uses of the packages strings and unicode, on code points; the tables
-- of package unicode are the record `Unicode`, of which nothing is assumed.
--
-- Errors.antt and Random.antt are the result type and the reading of random bytes from a tape, which
-- fails when the tape is used up. Text is a list of code points (Prelude/Strings.antt), and a Go map
-- is an association list with one entry for each key (Prelude/Map.antt).
--
-- Bounds: within one call of the store every reading of the clock gives the same time; a time 0 is
-- Go's zero time; durations of settings do not overflow; two times
-- of the limiter are less than 2 ^ 63 nanoseconds apart; nil and empty bytes are one value. The
-- mutexes of the store and of the limiter make a call one step, so interleavings are sequences of
-- calls. JSON, net/mail and Go's table of lower-case letters are parameters (`Env`).
--
-- Not modelled: the sealed connections of a user (accounts.go, collections.go and duplicates.go of
-- internal/store), the
-- cache of a session (an address here), the rest of merging (loading the records, and vcard.go) and of the object model, DAV clients, providers, mail, the desktop
-- shell, configuration and the HTTP handlers.
pub mod Prelude
pub mod Strings
pub mod Errors
pub mod Random
pub mod Crypto
pub mod RateLimit
pub mod Store
pub mod Merge
pub mod Session
pub mod Files
pub mod Fold
