-- ===== src/Encryption.antt =====
-- core/src/encryption: key names, key material, encryption output, keychains, keys, the backup
-- password and the derivation of backup keys.
pub mod KeyName
pub mod KeyMaterial
pub mod EncryptionOutput
pub mod BackupPassword
pub mod Keychain
pub mod Keys
pub mod BackupKeys
