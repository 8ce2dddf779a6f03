-- ===== src/Examples/Values.antt =====
-- A key, an agent and messages for the examples.
use ssh_keys.Base.{Bytes, true, none, [], ◌∷◌, ◌++◌}
use ssh_keys.Packages.{ByteOrder, Openssl}
use ssh_keys.Packages.Model
use ssh_keys.Text.{ascii}
use ssh_keys.Key.{PrivateKey, PublicKey, KeyPair}
use ssh_keys.Agent.{Agent, User, RequestInfo}

abbrev pub bo : ByteOrder
bo = Model.byteorder

abbrev pub ssl : Openssl
ssl = Model.openssl

abbrev pub rsa_key : ssl.Rsa
rsa_key = record { n = 15; e = 3; d = 11 }

abbrev pub public_key : PublicKey ssl
public_key = PublicKey.rsa 3 15

abbrev pub key_pair : KeyPair ssl
key_pair = record {
  private_key = PrivateKey.rsa rsa_key;
  public_key = public_key;
  name = ascii "me";
}

abbrev pub empty_agent : Agent ssl
empty_agent = record {
  config = record { keys = [] };
  disk = record { contents = none; faults = [] };
  prompts = [];
}

abbrev pub agent : Agent ssl
agent = record {
  config = record { keys = key_pair ∷ [] };
  disk = record { contents = none; faults = [] };
  prompts = [];
}

-- Who agrees to everything.
abbrev pub user : User ssl
user prompts = true

abbrev pub info : RequestInfo
info = record { channel = ascii "Pipe"; requester = none }

-- The wire forms, written out.
abbrev pub ssh_rsa_string : Bytes
ssh_rsa_string = 0 ∷ 0 ∷ 0 ∷ 7 ∷ ascii "ssh-rsa"

abbrev pub blob : Bytes
blob = ssh_rsa_string ++ (0 ∷ 0 ∷ 0 ∷ 1 ∷ 3 ∷ 0 ∷ 0 ∷ 0 ∷ 1 ∷ 15 ∷ [])

-- Sign the two bytes 7 and 8, with the flag for SHA-256.
abbrev pub sign_request : Bytes
sign_request = 13 ∷ 0 ∷ 0 ∷ 0 ∷ 21 ∷ blob ++ (0 ∷ 0 ∷ 0 ∷ 2 ∷ 7 ∷ 8 ∷ 0 ∷ 0 ∷ 0 ∷ 2 ∷ [])

abbrev pub list_request : Bytes
list_request = 11 ∷ []
