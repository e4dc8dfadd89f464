-- ===== src/Examples/Certificates.antt =====
-- Runs of the certificate tables.
use cert_generator.Prelude.{◌≡◌, refl, true, none, some, List, [], ◌∷◌, codes, arith}
use cert_generator.Certificates.{
  Ca, Certificate, Registry, list_revoked_serials, get_ca_named_chain, chain_from, max_depth,
}
use cert_generator.Certificates.Roots.{root_ca_id, last_ca, root_ca_id-last_ca}
use cert_generator.Certificates.Calls.{Call, save, revoke, delete, run}
use cert_generator.Certificates.Revoked.{IsPresent}
use cert_generator.Certificates.Listed.{is_listed, list_revoked_serials-is_listed}

abbrev root : Ca
root = record { id = 1; name = codes "Root"; cert_pem = codes "root pem"; parent_ca_id = none }

abbrev intermediate : Ca
intermediate = record {
  id = 2;
  name = codes "Intermediate";
  cert_pem = codes "intermediate pem";
  parent_ca_id = some 1;
}

abbrev revoked_one : Certificate
revoked_one = record {
  id = 5;
  ca_id = 2;
  common_name = codes "nas.lan";
  not_after = 1000;
  serial = codes "0xab";
  cert_pem = codes "pem";
  revoked = true;
  revoked_at = some 90;
  created_at = 10;
}

abbrev registry : Registry
registry = record {
  cas = root ∷ intermediate ∷ [];
  certificates = revoked_one ∷ [];
  cert_seq = 6;
  deleted_revocations = [];
}

named_chain-registry :
    get_ca_named_chain 2 registry
    ≡ (codes "Intermediate", codes "intermediate pem") ∷ (codes "Root", codes "root pem") ∷ []
unfolding get_ca_named_chain
named_chain-registry = refl

-- the certificate is deleted, and another one takes its name
abbrev replaced : List Call
replaced =
    delete 5
    ∷ save 100 (record {
      ca_id = 2;
      common_name = codes "nas.lan";
      not_after = 2000;
      serial = codes "0xcd";
      cert_pem = codes "new pem";
    })
    ∷ revoke 110 6
    ∷ []

registry-IsPresent : IsPresent 2 (codes "0xab") 1000 5 registry
registry-IsPresent = record {
  there = omega arith;
  one_serial = omega arith;
  one_id = omega arith;
  given = omega arith;
  no_trace = refl;
}

list_revoked_serials-is_listed_example :
    is_listed (codes "0xab") (list_revoked_serials 999 2 (run replaced registry)) ≡ true
list_revoked_serials-is_listed_example =
    list_revoked_serials-is_listed 2 (codes "0xab") 1000 5 registry replaced 999 registry-IsPresent
      (omega arith)

ends_at_root : last_ca (chain_from max_depth [] (some 2) registry.cas) ≡ some root
unfolding chain_from
ends_at_root = refl

root_ca_id-last_ca_example : root_ca_id 2 registry ≡ some 1
root_ca_id-last_ca_example = root_ca_id-last_ca 2 registry root ends_at_root refl
