-- ===== src/Process/Backup.antt =====
-- Proofs about the files of settings that rssani_lite.cpp writes.
-- What a save does to each file.
use rssani.Base.{
  ◌≡◌, inl, inr, refl, ◌∙◌, false, ◌&&◌, none, some, arith, if◌then◌else◌, QString, lookup,
  lookup-insert, lookup-remove, text_eq, text_eq_iff, text_eq_refl, remove, Option-cases,
}
use rssani.Settings.Store.{QSettings}
use rssani.Settings.{write_settings}
use rssani.Process.{
  backup_of, Setup, Files, Process, settings_in, copy_file, back_up, guardar_files,
}

module _ (q : QSettings) (setup : Setup q) where
  lookup-copy_file :
      (from to t : QString) (files : Files q setup)
      → lookup to files ≡ none
      → lookup t (copy_file q setup from to files)
        ≡ (if setup.copies && text_eq to t then lookup from files else lookup t files)
  unfolding copy_file
  lookup-copy_file from to t files fresh = elim (Option-cases (lookup from files)) [
    | inl n ↦ ground (arith, n, fresh, text_eq_iff to t)
    | inr (s, e) ↦ ground (arith, e, fresh, lookup-insert to t s files)
  ]

  lookup-back_up :
      (dia t : QString) (files : Files q setup)
      → text_eq setup.file_name (backup_of q setup dia files) ≡ false
      → lookup t (back_up q setup dia files) ≡ (
          if text_eq (backup_of q setup dia files) t
          then (if setup.copies then lookup setup.file_name files else none)
          else lookup t files)
  lookup-back_up dia t files other =
      let to = backup_of q setup dia files in
      let same = text_eq_iff setup.file_name to in
      let back = text_eq_iff to setup.file_name in
      let gone = lookup-remove to to files in
      ground (
        arith,
        other,
        same,
        back,
        text_eq_refl to,
        lookup-remove to t files,
        lookup-remove to setup.file_name files,
        lookup-copy_file setup.file_name to t (remove to files) (gone ∙ rw (text_eq_refl to) refl),
      )

  settings_in-back_up :
      (dia : QString) (files : Files q setup)
      → text_eq setup.file_name (backup_of q setup dia files) ≡ false
      → settings_in q setup (back_up q setup dia files) ≡ settings_in q setup files
  settings_in-back_up dia files other =
      let to = backup_of q setup dia files in
      ground (
        arith,
        other,
        text_eq_iff setup.file_name to,
        text_eq_iff to setup.file_name,
        lookup-back_up dia setup.file_name files other,
      )

  -- A save on a day, where the copy has another name than the settings file: the settings file has the
  -- settings of the state; the copy of that day has what the settings file had, and is gone if it
  -- cannot be made, also if there was one of that day; every other file is as it was.
  pub lookup-guardar_files :
      (dia t : QString) (p : Process q setup)
      → text_eq setup.file_name (backup_of q setup dia p.files) ≡ false
      → lookup t (guardar_files q setup dia p).files ≡ (
          if text_eq setup.file_name t
          then some (write_settings q p.daemon.core (settings_in q setup p.files))
          else if text_eq (backup_of q setup dia p.files) t
          then (if setup.copies then lookup setup.file_name p.files else none)
          else lookup t p.files)
  unfolding guardar_files
  lookup-guardar_files dia t p other =
      let stored =
        write_settings q p.daemon.core (settings_in q setup (back_up q setup dia p.files)) in
      lookup-insert setup.file_name t stored (back_up q setup dia p.files)
      ∙ rw (settings_in-back_up dia p.files other, lookup-back_up dia t p.files other) refl
