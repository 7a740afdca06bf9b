-- ===== src/Tests.antt =====
-- Runs of the models at concrete inputs, and the main theorems applied where their hypotheses hold.
mod DerTests
mod RsaTests
mod HexTests
mod KeccakTests
mod DrbgTests
mod Sha2Tests
mod DigestTests
mod XmssTests
mod BlakeTests
mod Sha1Tests
mod JsonTests
mod MlkemTests
