-- ===== src/Trustnet/Spoofing.antt =====
-- The `X-Forwarded-For` chain of internal/trustnet/trustnet.go, where a client has written into it.
use Prim.Native.Char.{Char, code}
use Prim.Native.String.{◌++◌ as ◌<>◌}
use Prim.Native.String.append
use mxlrcgo_svc.Common.{
  ◌≡◌, ◌≢◌, refl, sym, ap, ◌∙◌, subst, String, Bool, true, false, Option, none, some, inl, inr,
  List, [], ◌∷◌, ◌++◌, ◌==◌, any, str_eq, if◌then◌else◌, Bool-cases,
}
use mxlrcgo_svc.Normalize.{trim_space}
use mxlrcgo_svc.Paths.{onto_first}
use mxlrcgo_svc.Trustnet.{
  fields, join_values, entry, entries, split_xff, remote_addr_ip, ip_in_any, or_raw, usable,
  walk_entries, or_peer, client_ip,
}

append_assoc {ℓ} : {A : Type ℓ} (xs ys zs : List A) → (xs ++ ys) ++ zs ≡ xs ++ (ys ++ zs)
append_assoc [] ys zs = refl
append_assoc (x ∷ xs) ys zs = ap (λ r. x ∷ r) (append_assoc xs ys zs)

append_nil {ℓ} : {A : Type ℓ} (xs : List A) → xs ++ [] ≡ xs
append_nil [] = refl
append_nil (x ∷ xs) = ap (λ r. x ∷ r) (append_nil xs)

-- A text has at least one field.
onto_first-append :
    (c : Char) (s : String) (rest : List String)
    → onto_first c (fields s ++ rest) ≡ onto_first c (fields s) ++ rest
unfolding fields
onto_first-append c String.[] rest = refl
onto_first-append c (String.◌∷◌ d s) rest = elim (Bool-cases (code d == b',')) [
  | inl comma ↦ rw comma refl
  | inr other ↦ rw other (front (fields s))
]
  where
    front :
        (ps : List String)
        → onto_first c (onto_first d ps ++ rest) ≡ onto_first c (onto_first d ps) ++ rest
    front [] = refl
    front (p ∷ ps) = refl

fields-join : (s t : String) → fields (s <> "," <> t) ≡ fields s ++ fields t
unfolding fields
fields-join String.[] t = ap fields (
    (λ i. append.nil ("," <> t) i)
    ∙ (λ i. append.cons "," "" t i)
    ∙ ap (λ r. String.◌∷◌ "," r) (λ i. append.nil t i))
fields-join (String.◌∷◌ c s) t =
    ap fields (λ i. append.cons c s ("," <> t) i) ∙ elim (Bool-cases (code c == b',')) [
      | inl comma ↦ rw comma (ap (λ r. "" ∷ r) (fields-join s t))
      | inr other ↦
          rw other (ap (onto_first c) (fields-join s t) ∙ onto_first-append c s (fields t))
    ]

flat : List String → List String
flat [] = []
flat (v ∷ vs) = fields v ++ flat vs

fields-join_values : (v : String) (vs : List String) → fields (join_values (v ∷ vs)) ≡ flat (v ∷ vs)
unfolding join_values flat
fields-join_values v [] = sym (append_nil (fields v))
fields-join_values v (w ∷ vs) =
    fields-join v (join_values (w ∷ vs)) ∙ ap (λ r. fields v ++ r) (fields-join_values w vs)

flat-append : (xs ys : List String) → flat (xs ++ ys) ≡ flat xs ++ flat ys
unfolding flat
flat-append [] ys = refl
flat-append (x ∷ xs) ys =
    ap (λ r. fields x ++ r) (flat-append xs ys)
    ∙ sym (append_assoc {A = String} (fields x) (flat xs) (flat ys))

entries-append : (ps qs : List String) → entries (ps ++ qs) ≡ entries qs ++ entries ps
unfolding entries
entries-append [] qs = sym (append_nil (entries qs))
entries-append (p ∷ ps) qs =
    ap (λ r. r ++ entry p) (entries-append ps qs)
    ∙ append_assoc {A = String} (entries qs) (entries ps) (entry p)

header-fields :
    (xs : List String) (v : String) (ys : List String)
    → fields (join_values (xs ++ v ∷ ys)) ≡ flat (xs ++ v ∷ ys)
header-fields [] v ys = fields-join_values v ys
header-fields (x ∷ xs) v ys = fields-join_values x (xs ++ v ∷ ys)

-- The entries of a header, what stands behind a comma first.
entries-forged :
    (xs ys : List String) (s t : String)
    → entries (fields (join_values (xs ++ (s <> "," <> t) ∷ ys)))
      ≡ entries (flat (t ∷ ys)) ++ entries (flat xs ++ fields s)
unfolding flat
entries-forged xs ys s t =
    ap entries (
      header-fields xs (s <> "," <> t) ys
      ∙ flat-append xs ((s <> "," <> t) ∷ ys)
      ∙ ap (λ r. flat xs ++ (r ++ flat ys)) (fields-join s t)
      ∙ ap (λ r. flat xs ++ r) (append_assoc {A = String} (fields s) (fields t) (flat ys))
      ∙ sym (append_assoc {A = String} (flat xs) (fields s) (fields t ++ flat ys)))
    ∙ entries-append (flat xs ++ fields s) (fields t ++ flat ys)

module _ (Ip : Type 0) (parse_ip : String → Option Ip) (split_host_port : String → Option String)
    (is_loopback : Ip → Bool) (parse_cidr : String → Option (Ip → Bool)) where
  walk-append :
      (proxies : List (Ip → Bool)) (es fs : List String) (ip : Ip)
      → walk_entries Ip parse_ip split_host_port is_loopback parse_cidr proxies es ≡ some ip
      → walk_entries Ip parse_ip split_host_port is_loopback parse_cidr proxies (es ++ fs) ≡ some ip
  unfolding walk_entries
  walk-append proxies [] fs ip e = absurd (cc)
  walk-append proxies (x ∷ es) fs ip e =
      used
        (parse_ip (or_raw Ip parse_ip split_host_port is_loopback parse_cidr x (split_host_port x)))
        (λ h. walk-append proxies es fs ip h) e
    where
      walk : List String → Option Ip
      walk = walk_entries Ip parse_ip split_host_port is_loopback parse_cidr proxies

      used :
          (o : Option Ip)
          → (walk es ≡ some ip → walk (es ++ fs) ≡ some ip)
          → usable Ip parse_ip split_host_port is_loopback parse_cidr proxies o (walk es) ≡ some ip
          → usable Ip parse_ip split_host_port is_loopback parse_cidr proxies o (walk (es ++ fs))
            ≡ some ip
      used none ih h = ih h
      used (some a) ih h = elim (Bool-cases (any (λ n. n a) proxies)) [
        | inl hop ↦ rw hop (ih (subst (λ b. (if b then walk es else some a) ≡ some ip) hop h))
        | inr client ↦ rw client (subst (λ b. (if b then walk es else some a) ≡ some ip) client h)
      ]

  -- A client cannot forge its address behind the trusted proxies. If the peer is a trusted proxy, and
  -- what the proxies wrote, the end `t` of a line and the lines `ys` behind it, names an address that
  -- is not a proxy's, then that is the client's address, whatever stands before `t` in its line and
  -- in the lines before it; the header as a whole is not blank.
  pub client_ip-unforged :
      (proxies : List (Ip → Bool)) (addr : String) (xs ys : List String) (s t : String) (ip : Ip)
      → ip_in_any Ip parse_ip split_host_port is_loopback parse_cidr
          (remote_addr_ip Ip parse_ip split_host_port is_loopback parse_cidr addr)
          proxies
        ≡ true
      → walk_entries Ip parse_ip split_host_port is_loopback parse_cidr proxies
          (split_xff (join_values (t ∷ ys)))
        ≡ some ip
      → str_eq (trim_space (join_values (xs ++ (s <> "," <> t) ∷ ys))) "" ≡ false
      → client_ip Ip parse_ip split_host_port is_loopback parse_cidr proxies
          (record { remote_addr = addr; forwarded_for = xs ++ (s <> "," <> t) ∷ ys })
        ≡ some ip
  unfolding client_ip split_xff
  client_ip-unforged proxies addr xs ys s t ip trusted_peer named written = rw trusted_peer (
      rw written (
        subst
          (λ es.
            or_peer Ip parse_ip split_host_port is_loopback parse_cidr peer (walk es) ≡ some ip)
          (sym (entries-forged xs ys s t))
          (ap (or_peer Ip parse_ip split_host_port is_loopback parse_cidr peer) (
            walk-append proxies (entries (flat (t ∷ ys))) (entries (flat xs ++ fields s)) ip
              real))))
    where
      peer : Option Ip
      peer = remote_addr_ip Ip parse_ip split_host_port is_loopback parse_cidr addr

      walk : List String → Option Ip
      walk = walk_entries Ip parse_ip split_host_port is_loopback parse_cidr proxies

      Chosen : Bool → Type 0
      Chosen blank = walk (if blank then [] else entries (fields (join_values (t ∷ ys)))) ≡ some ip

      nothing : walk [] ≢ some ip
      nothing e = absurd (unfold walk_entries in cc)

      real : walk (entries (flat (t ∷ ys))) ≡ some ip
      real = elim (Bool-cases (str_eq (trim_space (join_values (t ∷ ys))) "")) [
        | inl blank ↦ absurd (nothing (subst Chosen blank named))
        | inr given ↦
            subst (λ fs. walk (entries fs) ≡ some ip) (fields-join_values t ys)
              (subst Chosen given named)
      ]
