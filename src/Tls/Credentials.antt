-- ===== src/Tls/Credentials.antt =====
-- Which certificate and key impl/common/crypto/OpenSslCryptoStrategy.cpp loads.
use aa_v.Base.{
  ◌≡◌, refl, Bool, false, Option, none, some, [], ◌∷◌, Bytes, if◌then◌else◌, Option-cases, inl, inr,
  ap, ◌∙◌,
}
use aa_v.Tls.{OpenSsl, CryptoConfig, resolve, load_key, load_credentials, init_ssl_context}

-- core/include/aauto/crypto/ICryptoStrategy.hpp: "Priority: in-memory strings if non-empty, else
-- file paths, else built-in defaults".
pub data Source : Type 0 where
  in_memory file : Bytes → Source

abbrev pub preferred : Bytes → Bytes → Bytes → Source
preferred [] [] built_in = Source.in_memory built_in
preferred [] (c ∷ path) built_in = Source.file (c ∷ path)
preferred (c ∷ pem) path built_in = Source.in_memory (c ∷ pem)

module _ {Context Ssl : Type 0} (lib : OpenSsl Context Ssl) (certificate private_key : Bytes) where
  abbrev pub load_from :
      (Bytes → Context → Context × Bool)
      → (Bytes → Context → Context × Bool)
      → Source
      → Context
      → Context × Bool
  load_from from_file from_memory (Source.in_memory pem) ctx = from_memory pem ctx
  load_from from_file from_memory (Source.file path) ctx = from_file path ctx

  load-preferred :
      (from_file from_memory : Bytes → Context → Context × Bool) (pem path built_in : Bytes)
      (ctx : Context)
      → (let (use_file, text) = resolve lib certificate private_key pem path built_in in
          if use_file then from_file text ctx else from_memory text ctx)
        ≡ load_from from_file from_memory (preferred pem path built_in) ctx
  load-preferred from_file from_memory [] [] built_in ctx = refl
  load-preferred from_file from_memory [] (c ∷ path) built_in ctx = refl
  load-preferred from_file from_memory (c ∷ pem) path built_in ctx = refl

  -- A certificate, and when it is loaded the key that goes with it.
  abbrev pub load_both : Source → Source → Context → Context × Bool
  load_both cert key ctx =
      let (certified, loaded) = load_from lib.use_certificate_file lib.use_certificate cert ctx in
      if loaded
      then load_from lib.use_private_key_file lib.use_private_key key certified
      else (certified, false)

  abbrev cert_loaded : CryptoConfig → Context → Context × Bool
  cert_loaded config ctx =
      load_from lib.use_certificate_file lib.use_certificate
        (preferred config.cert_pem config.cert_pem_path certificate) ctx

  loads :
      (config : CryptoConfig) (ctx : Context)
      → load_credentials lib certificate private_key config ctx
        ≡ load_both
            (preferred config.cert_pem config.cert_pem_path certificate)
            (preferred config.key_pem config.key_pem_path private_key)
            ctx
  loads config ctx =
      ap
        (λ (r : Context × Bool).
          if r.1 then load_key lib certificate private_key config r.0 else (r.0, false))
        (load-preferred lib.use_certificate_file lib.use_certificate config.cert_pem
          config.cert_pem_path certificate ctx)
      ∙ ap
          (λ (k : Context × Bool).
            if (cert_loaded config ctx).1 then k else ((cert_loaded config ctx).0, false))
          (load-preferred lib.use_private_key_file lib.use_private_key config.key_pem
            config.key_pem_path private_key (cert_loaded config ctx).0)

  abbrev pub prepared : Source → Source → Option Context → Option Context × Bool
  prepared cert key none = (none, false)
  prepared cert key (some ctx) =
      let (after, fine) = load_both cert key (lib.restrict ctx) in (some after, fine)

  -- The context is restricted to its protocol version, then loads the certificate and, when that is
  -- loaded, the key, each from the source that ICryptoStrategy.hpp documents: the text in memory
  -- when it is not empty, else the file when its path is not empty, else the built-in text. A
  -- certificate from a file does not make the key come from one. Without a context nothing is
  -- loaded.
  pub init_ssl_context-preferred :
      (config : CryptoConfig)
      → init_ssl_context lib certificate private_key config
        ≡ prepared
            (preferred config.cert_pem config.cert_pem_path certificate)
            (preferred config.key_pem config.key_pem_path private_key)
            lib.ctx_new
  unfolding init_ssl_context
  init_ssl_context-preferred config = elim (Option-cases lib.ctx_new) [
    | inl e ↦ rw e refl
    | inr (ctx, e) ↦
        rw e (ap (λ (r : Context × Bool). (some r.0, r.1)) (loads config (lib.restrict ctx)))
  ]
