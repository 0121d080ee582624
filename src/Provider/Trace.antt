-- ===== src/Provider/Trace.antt =====
-- The calls of a kind that the provider has made, as a number: answers to the page, calls of the
-- remote API, and signatures.
use sealvault.Prelude.{ℕ, suc, Bool, true, false, List, [], ◌∷◌, if◌then◌else◌}
use sealvault.Provider.{Call}

-- A response, or a request to the user that the page waits for
unfoldable pub is_answer : Call → Bool
is_answer (Call.respond _) = true
is_answer (Call.request_dapp_approval _) = true
is_answer _ = false

-- A call of the remote API: a request that is passed on, a transaction, or the wait for its result
unfoldable pub is_remote : Call → Bool
is_remote (Call.proxy_rpc_request _ _ _) = true
is_remote (Call.send_transaction _ _ _) = true
is_remote (Call.transfer_native_token _ _ _ _) = true
is_remote (Call.wait_for_confirmation _ _) = true
is_remote _ = false

-- A use of a signing key
unfoldable pub is_signing : Call → Bool
is_signing (Call.sign _ _) = true
is_signing (Call.send_transaction _ _ _) = true
is_signing (Call.transfer_native_token _ _ _ _) = true
is_signing _ = false

unfoldable pub count : (Call → Bool) → List Call → ℕ
count kind [] = 0
count kind (c ∷ cs) = let rest = count kind cs in if kind c then suc rest else rest
