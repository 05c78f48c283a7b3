-- ===== src/Validate/Deploy/Soundness.antt =====
-- The deployment report of go/tools/pkg/validate/checks.go, read back into the checks' results.
use aegis_labs.Common.Bytes.{Address, zero_address, bytes_eq}
use aegis_labs.Common.{
  String, ◌≡◌, refl, sym, ◌∙◌, Bool, false, ◌||◌, Option, none, some, List, [], ◌∷◌, ◌++◌, map,
  arith, All,
}
use aegis_labs.Validate.Report.{CheckResult, Report, is_fail, any_fail, has_failures, add_all}
use aegis_labs.Validate.Verdicts.{has_failures-add_all, any_fail-append}
use aegis_labs.Validate.Machine.{Machine, Client, Hex}
use aegis_labs.Validate.Deploy.{
  Entry, address_not_zero, address_has_code, key_has_funds, min_deploy_balance, verdict, zero_check,
  code_check, zero_labels, code_checks, funds_check, check_deployer_key_source,
  register_deploy_checks,
}

verdict_fails :
    (id name found fix : String) (e : Option String)
    → is_fail (verdict id name found fix e).status ≡ false
    → e ≡ none
unfolding verdict
verdict_fails id name found fix none h = refl
verdict_fails id name found fix (some e) h = cc

abbrev pub IsNonZero : Entry → Type 0
IsNonZero (label, addr) = bytes_eq addr zero_address ≡ false

abbrev pub HasCode : Hex → Option Client → Entry → Type 0
HasCode hx client (label, addr) = address_has_code hx client addr label ≡ none

none_zero :
    (hx : Hex) (addr : Address) (label : String)
    → address_not_zero hx addr label ≡ none
    → bytes_eq addr zero_address ≡ false
unfolding address_not_zero
none_zero hx addr label h = ground arith

zero_check_passes :
    (hx : Hex) (e : Entry)
    → is_fail (zero_check hx e).status ≡ false
    → address_not_zero hx e.1 e.0 ≡ none
unfolding zero_check
zero_check_passes hx (label, addr) h = verdict_fails _ _ _ _ (address_not_zero hx addr label) h

code_check_passes :
    (hx : Hex) (client : Option Client) (e : Entry)
    → is_fail (code_check hx client e).status ≡ false
    → HasCode hx client e
unfolding code_check
code_check_passes hx client (label, addr) h =
    verdict_fails _ _ _ _ (address_has_code hx client addr label) h

neither : (a b : Bool) → (a || b) ≡ false → (a ≡ false) × (b ≡ false)
neither a b h = (ground arith, ground arith)

neither_part :
    (xs ys : List CheckResult)
    → any_fail (xs ++ ys) ≡ false
    → (any_fail xs ≡ false) × (any_fail ys ≡ false)
neither_part xs ys h = neither (any_fail xs) (any_fail ys) (sym (any_fail-append xs ys) ∙ h)

zero_checks_pass :
    (hx : Hex) (entries : List Entry)
    → any_fail (map (zero_check hx) entries) ≡ false
    → All IsNonZero entries × (zero_labels hx entries ≡ [])
unfolding any_fail zero_labels
zero_checks_pass hx [] h = (tt, refl)
zero_checks_pass hx ((label, addr) ∷ rest) h =
    let (here, there) = neither _ _ h in
    let nonzero = zero_check_passes hx (label, addr) here in
    let (others, labels) = zero_checks_pass hx rest there in
    ((none_zero hx addr label nonzero, others), rw (nonzero, zero_labels) labels)

code_checks_pass :
    (hx : Hex) (client : Option Client) (entries : List Entry)
    → any_fail (code_checks hx client [] entries) ≡ false
    → All (HasCode hx client) entries
unfolding any_fail code_checks
code_checks_pass hx client [] h = tt
code_checks_pass hx client ((label, addr) ∷ rest) h =
    let (here, there) = neither _ _ h in
    (code_check_passes hx client (label, addr) here, code_checks_pass hx client rest there)

-- With a client and a key, the balance check found enough.
abbrev pub IsFunded : Hex → Option Client → Option Address → Type 0
IsFunded hx (some client) (some key) = key_has_funds hx (some client) key min_deploy_balance ≡ none
IsFunded hx _ _ = Unit {0}

funds_check_passes :
    (hx : Hex) (client : Option Client) (key : Option Address)
    → any_fail (funds_check hx client key) ≡ false
    → IsFunded hx client key
unfolding any_fail funds_check
funds_check_passes hx (some client) (some key) h =
    verdict_fails _ _ _ _ (key_has_funds hx (some client) key min_deploy_balance) (neither _ _ h).0
funds_check_passes hx (some client) none h = tt
funds_check_passes hx none key h = tt

added_pass :
    (r : Report) (xs : List CheckResult) → has_failures (add_all r xs) ≡ false → any_fail xs ≡ false
added_pass r xs h = (neither (has_failures r) (any_fail xs) (sym (has_failures-add_all r xs) ∙ h)).1

-- A deployment report without failures means that no address was zero, that the code check of
-- every address returned no error, and that, with a client and a key, the balance check returned
-- none. `first` and `second` are the two orders in which the addresses are gone through.
pub register_deploy_checks_sound :
    (hx : Hex) (m : Machine) (r : Report) (client : Option Client) (key : Option Address)
    (first second : List Entry) (path : String)
    → has_failures (register_deploy_checks hx m r client key first second path) ≡ false
    → All IsNonZero first × All (HasCode hx client) second × IsFunded hx client key
unfolding register_deploy_checks
register_deploy_checks_sound hx m r client key first second path h =
    let (zeros, rest) = neither_part (map (zero_check hx) first) _ (added_pass r _ h) in
    let (nonzero, labels) = zero_checks_pass hx first zeros in
    let (codes, rest') =
      neither_part (code_checks hx client (zero_labels hx first) second) _ rest in
    let (source, rest'') = neither_part (check_deployer_key_source m ∷ []) _ rest' in
    let (funds, _) = neither_part (funds_check hx client key) _ rest'' in
    (
      nonzero,
      code_checks_pass hx client second (rw labels at codes),
      funds_check_passes hx client key funds,
    )
